-- ===== src/Ioio.antt =====
-- ymirc/arch/x86/svm_ioio.c: #VMEXIT handlers for port instructions. The handlers of the devices
-- are the children `Uart`, `Pit` and `Pic`; the dispatch on the port is `Ioio.Dispatch`.
pub mod Info
pub mod Uart
pub mod Pit
pub mod Pic
pub mod Dispatch
pub mod PicInit
pub mod Contained
