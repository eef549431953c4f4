-- ===== src/Models.antt =====
-- models/: the data that the layers exchange.
pub mod Shadow
pub mod Filter
