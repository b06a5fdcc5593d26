-- ===== src/Threads/Dispatch.antt =====
-- The dispatch of a call in the queue, `DispatchToV8` of src/callback_info.cc as `WatcherCallback` calls
-- it.
use node_ffi.Base.{ℕ, Option, true}
use node_ffi.World.{World}
use node_ffi.Platform.{Platform}
use node_ffi.Callback.{Closure, Closures, dispatch_to_v8}

-- What `Invoke` puts into a `ThreadedCallbackInvokation`: the function, none if it was garbage collected,
-- and the Buffers for its result and of its parameters.
pub record ThreadedCall (B : Type 0) : Type 0 where
  pub closure : Option Closure
  pub retval : B
  pub params : B

module _ (p : Platform) where
  open p use {Buf, Native}

  -- `DispatchToV8(inv->m_cbinfo, inv->m_retval, inv->m_parameters, true)`: what it does to the state.
  unfoldable pub dispatch : Closures p → (ℕ → ThreadedCall Buf) → ℕ → World Native → World Native
  dispatch c calls i w =
      let inv = calls i in (dispatch_to_v8 p c inv.closure inv.retval inv.params true w).1
