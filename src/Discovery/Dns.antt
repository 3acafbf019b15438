-- ===== src/Discovery/Dns.antt =====
-- crates/rustorr-discovery/src/dns.rs: the messages, how they are read (Parse) and written (Pack).
pub mod Parse
pub mod Pack
mod Tests
use rustorr.Base.{ℕ, Bool, List}
use rustorr.Text.{Text}

abbrev pub type_a : ℕ
type_a = 1

abbrev pub type_ptr : ℕ
type_ptr = 12

abbrev pub type_txt : ℕ
type_txt = 16

abbrev pub type_aaaa : ℕ
type_aaaa = 28

abbrev pub type_srv : ℕ
type_srv = 33

-- A text is the list of its UTF-8 bytes here, an address that of its octets.
pub data RecordData : Type 0 where
  ptr : Text → RecordData
  srv : ℕ → Text → RecordData
  txt : List Text → RecordData
  a : List ℕ → RecordData
  aaaa : List ℕ → RecordData

pub record DnsRecord : Type 0 where
  pub name : Text
  pub class : ℕ
  pub ttl : ℕ
  pub content : RecordData

unfoldable pub kind : RecordData → ℕ
kind (ptr target) = type_ptr
kind (srv port target) = type_srv
kind (txt strings) = type_txt
kind (a octets) = type_a
kind (aaaa octets) = type_aaaa

pub record Question : Type 0 where
  pub name : Text
  pub kind : ℕ
  pub class : ℕ

pub record Message : Type 0 where
  pub id : ℕ
  pub response : Bool
  pub opcode : ℕ
  pub authoritative : Bool
  pub recursion_desired : Bool
  pub checking_disabled : Bool
  pub questions : List Question
  pub answers : List DnsRecord
  pub authority : List DnsRecord
  pub additional : List DnsRecord
