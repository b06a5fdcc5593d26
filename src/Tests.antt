-- ===== src/Tests.antt =====
-- A platform on which the definitions run, and the theorems at concrete inputs.
pub mod Toy
pub mod Scene
pub mod Types
pub mod Fuel
pub mod Cifs
pub mod Calls
pub mod Variadics
pub mod Callbacks
pub mod CallbackInfos
pub mod Libraries
pub mod Linking
pub mod Threads
pub mod AsyncCalls
pub mod Loading
