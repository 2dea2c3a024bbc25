-- ===== src/Frame.antt =====
-- src/frame: the frames on the wire and the sizes they are held to.
pub mod EtherCatPdu
pub mod Ethernet
pub mod Pdus
pub mod Util
pub mod MailboxFrame
pub mod AbortCode
pub mod Coe
pub mod Mailbox
use ethercat.Base.{ℕ, ◌-◌}

abbrev pub wkc_length : ℕ
wkc_length = 2

abbrev pub src_mac : ℕ
src_mac = 0x050505050505

abbrev pub dst_mac : ℕ
dst_mac = 0xFFFFFFFFFFFF

abbrev pub ethercat_type : ℕ
ethercat_type = 0x88A4

abbrev pub ethernet_header_size : ℕ
ethernet_header_size = 14

abbrev pub ethercat_header_size : ℕ
ethercat_header_size = 2

abbrev pub pdu_header_size : ℕ
pdu_header_size = 10

abbrev pub max_ethercat_datagram : ℕ
max_ethercat_datagram = 1514 - ethernet_header_size - ethercat_header_size

abbrev pub max_pdu_datagram : ℕ
max_pdu_datagram = max_ethercat_datagram - pdu_header_size - wkc_length
