-- ===== src/Vm.antt =====
-- core/vm: the stack of the interpreter, and its helpers on memory sizes and data.
pub mod Stack
pub mod Words
mod Tests
