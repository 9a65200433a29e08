-- ===== src/Message.antt =====
-- The data of include/umdns/mdns.h and include/umdns/common.h. A `char` array is its text.
use umdns.Prelude.{[], ℕ}
use umdns.Text.{Text}

-- UMDNS_MAX_TXT and the sizes that the packet code uses.
abbrev pub max_txt : ℕ
max_txt = 512

-- `sizeof(umdns_dns_header_t)`: six 16-bit counts and flags.
abbrev pub header_len : ℕ
header_len = 12

abbrev pub rr_a : ℕ
rr_a = 1

abbrev pub rr_ptr : ℕ
rr_ptr = 12

abbrev pub rr_txt : ℕ
rr_txt = 16

abbrev pub rr_aaaa : ℕ
rr_aaaa = 28

abbrev pub rr_srv : ℕ
rr_srv = 33

-- `umdns_question_t`.
pub record Question : Type 0 where
  pub name : Text
  pub qtype : ℕ

-- `umdns_service_t`.
pub record Service : Type 0 where
  pub instance : Text
  pub type : Text
  pub host : Text
  pub port : ℕ
  pub txt : Text

-- `umdns_result_t`.
pub record Result : Type 0 where
  pub instance : Text
  pub hostname : Text
  pub service_type : Text
  pub address : Text
  pub port : ℕ
  pub txt : Text
  pub rrtype : ℕ

-- `umdns_result_init`.
abbrev pub result_init : Result
result_init = record {
  instance = [];
  hostname = [];
  service_type = [];
  address = [];
  port = 0;
  txt = [];
  rrtype = 0;
}
