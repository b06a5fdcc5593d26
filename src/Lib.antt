-- ===== src/Lib.antt =====
-- The JavaScript core of node-ffi: from "ref" types to libffi's descriptions of them, to call
-- interfaces, to proxies that call C functions.
--
-- A proxy is made in three steps. `Type()` (lib/type.js) finds or builds the `ffi_type *` of a type;
-- `CIF()` and `CIF_var()` (lib/cif.js, lib/cif_var.js) collect those of the return type and the
-- arguments and let libffi prepare a `ffi_cif`; `ForeignFunction()` (lib/_foreign_function.js, behind
-- lib/foreign_function.js) closes over it and converts arguments and results. A variadic function
-- (lib/foreign_function_var.js) makes one such proxy for each list of types and caches it. The
-- other way round, `Callback()` (lib/callback.js) makes a C function of a JavaScript one; called on
-- another thread, it waits in a queue of the addon until the event loop has run it. `Library()`
-- (lib/library.js) opens a library by `DynamicLibrary()` (lib/dynamic_library.js) and makes a proxy or
-- a variadic function for each symbol that is described to it. What all of them share is the type
-- objects, on which they set `ffi_type` and an identifier; the start-up code (lib/ffi.js) sets it
-- on the built-in ones.
--
-- The files:
--   Base       Boolean tests on numbers, lists, and names of the libraries
--   Value      JavaScript values and errors, with the texts that the source gives them, and results
--   World      the type objects with their prototypes, the two properties that the code assigns on
--              them, and the state of the process; and the monad of the code. World.Keeps, World.Bind
--              and World.Ends hold the rules on runs that keep the types, that return, and that end
--   Platform   what is not code of lib/: Buffers, the packages ref and ref-struct, the native addon
--              (src/*.cc) and libffi are parameters, and `IsLawful` names what is documented of them
--   FfiType    `Type()`, lib/type.js lines 34 to 128: `shortcut` (a set `ffi_type`, pointers and
--              arrays), `struct_type` (structs), `named_type` (types of another copy of ref)
--   Cif        `CIF()` and `CIF_var()`, with the errors of libffi's status
--   ForeignFunction  the proxy (`call`), its `async` (`call_async`, and `run_task` for what happens
--              when the event loop gets to it), and the constructor of lib/foreign_function.js
--   Variadic   lib/foreign_function_var.js: `getId()`, the generator and its cache
--   Callback   `Callback()` of lib/callback.js, its closure (`closure_call`), and what the addon does
--              with the outcome, `DispatchToV8` of src/callback_info.cc
--   FunctionType  the types of function pointers, lib/function.js, with `get` and `set`, and the
--              properties that they inherit (`set_prototype`)
--   Text, DynamicLibrary  lib/dynamic_library.js: the constructor with the linker scripts that it
--              follows, `get`, `close`, `error` and the flags; Text has its regular expressions.
--              These take a `Linker`; DynamicLibrary.Proxies makes one of the four proxies by which
--              the module calls libc
--   Library    lib/library.js: the extension, and the loop that makes an object's functions
--   Threads    what src/callback_info.cc and src/threaded_callback_invokation.cc do where C calls a
--              function of `Callback()` on another thread: `CallerMove` is `Invoke`, `WatcherMove` is
--              `WatcherCallback`, and `Reach` are the states that any interleaving reaches
--   CallbackInfo  the memory of the closures, src/callback_info.cc: the addon's `Callback`
--              (`callback_method`) and the finalizer of its Buffer (`closure_pointer_cb`); in
--              CallbackInfo.Called it stands behind `Callback()` of lib/callback.js
--   AsyncCalls  src/ffi.cc, `ffi_call_async`: what `call_async` of ForeignFunction hands to the thread
--              pool, with the memory of such calls, and their callbacks
--   Startup    lib/ffi.js: the exports of the bindings and of the other modules, and the `ffi_type` of
--              the built-in types
--   Errno      lib/errno.js: `make_errno` is what the module does, `errno` the function it exports
--   Tests      a platform on which the definitions run, and the theorems at concrete inputs
--
-- Code that mutates runs as a function from a state to a result and a state; a thrown error is a
-- result and keeps the changes made before it. Type objects and functions are numbers. A Buffer is a
-- value, so what the code writes to it is the Buffer that comes back. `debug()` is left out. An
-- `Error` is its kind, its text as a constructor with the values in it, and the properties set on it.
--
-- `Type()` calls itself for the fields of a struct. Its fuel counts nested calls; without any left
-- the result is `overflow`, the stack overflow of a struct that is nested in itself. FfiType.Fuel
-- says how much is enough, and Cif.Fuel, ForeignFunction.Fuel and Variadic.Fuel for what calls it.
-- `DynamicLibrary()` calls itself for the file that a linker script names, and takes fuel in the
-- same way. The loops over fields, arguments and prototypes are recursions on lists.
--
-- `new FFI_TYPE` is one step with the assignments of its properties, after the fields were visited.
-- In ForeignFunction the call of an asynchronous function is one step, which runs after the caller
-- has returned. In AsyncCalls it is three, and those of different calls come in any order: the
-- function on the thread pool, the callback, and the end of its memory; an exception of the
-- callback, with which Node may end the process, is left out. Garbage collection is the end of a
-- Buffer at any time, in CallbackInfo only; the lines that keep a Buffer from it are not modelled.
--
-- In Threads each call of libuv is one step, with what stands before it. A mutex is taken only when
-- it is free. A wait on a condition ends after a signal, or, as libuv allows, without one, which the
-- state counts: what needs that there was none says so. Where `g_async` does not hold the event loop open,
-- the loop may stop; it need not, as something else may hold it. A user's function is a step that
-- ends. Nothing bounds the number of calls.
--
-- A thrown value is a `Failure`. Where a user's function may throw what is no Error, in Callback, the
-- parameter `thrown_value` says what it is.
--
-- Not modelled: lib/bindings.js, which loads the addon; the rest of src/*.cc, which is C++ that
-- unpacks arguments and calls libffi and libc; deps/libffi, a copy of another project; example/ and test/.
pub mod Base
pub mod Value
pub mod Text
pub mod World
pub mod Platform
pub mod FfiType
pub mod Cif
pub mod ForeignFunction
pub mod Variadic
pub mod Callback
pub mod CallbackInfo
pub mod FunctionType
pub mod DynamicLibrary
pub mod Library
pub mod Threads
pub mod AsyncCalls
pub mod Startup
pub mod Errno
pub mod Tests
