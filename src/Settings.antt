-- ===== src/Settings.antt =====
-- src/settings.cc and src/include/settings.h: the typed settings of server, client and logger.
pub mod Parse
pub mod Build
pub mod Laws
