-- ===== src/Utils.antt =====
-- internal/web/static/modules/utils.js, a module for each function.
pub mod Time
pub mod Csv
pub mod Debounce
