-- ===== src/Storage.antt =====
-- The stores outside the GPU: the page store of TokenSim/kv_transfer/native_storage.py and the Mooncake
-- store with its offload tier (TokenSim/mooncake/store.py, ssd.py).
pub mod PageStore
pub mod Offload
pub mod Mooncake
