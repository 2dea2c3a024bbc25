-- ===== src/Register.antt =====
-- src/register: the registers of a slave that the tasks read and write, one module for each.
pub mod AlControl
pub mod AlStatus
pub mod RxErrorCounter
pub mod SiiAccess
pub mod SiiControl
pub mod SiiAddress
pub mod SiiData
pub mod SyncManagerStatus
pub mod SyncManagerActivation
pub mod SyncManagerPdiControl
pub mod DcSystemTime
pub mod AlStatusCode
