-- ===== src/Tests.antt =====
-- The theorems at concrete inputs, and runs of the code.
mod IndexTests
mod FilterTests
mod DesireTests
mod AppTests
mod TransactTests
mod FacadeTests
mod ListingTests
mod SyncTests
mod Codec
mod ConfigTests
mod ShadowTests
mod ApiTests
mod LockTests
mod NodeTests
mod NodeOpsTests
mod AppStoreTests
