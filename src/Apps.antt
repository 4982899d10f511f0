-- ===== src/Apps.antt =====
-- tools/uvk5_apps.py: overlay apps, the 64-byte header of a .app and the app slots of the external
-- flash image.
pub mod Header
pub mod Image
pub mod Radio
