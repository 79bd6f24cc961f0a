-- ===== src/Platform/X11.antt =====
-- crates/wx-platform/src/linux_x11: the keyboard map of an X server, and the injector.
pub mod Keymap
pub mod Inject
