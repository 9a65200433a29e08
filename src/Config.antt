-- ===== src/Config.antt =====
-- The configuration of the server: src/common/config.c. The file is the list of the lines that
-- `fgets` reads from it, each up to its first NUL; a `service_index` of -1 is `none`.
pub mod Safety
pub mod Files
pub mod Resources
use umdns.Message.{Service, max_txt}
use umdns.Name.{max_name}
use umdns.Outcome.{Outcome, ok, fault, ◌>>=◌}
use umdns.Prelude.{
  ◌==◌, ltb, leb, length, take, drop, get_elem?, set, ℕ, zero, suc, ◌+◌, ◌-◌, ◌*◌, Bool, ◌&&◌, ◌||◌,
  Option, none, some, List, [], ◌∷◌, ◌++◌, if◌then◌else◌,
}
use umdns.Text.{Text, codes, snprintf, text_eq}

-- UMDNS_MAX_SERVICES.
abbrev pub max_services : ℕ
max_services = 32

-- `umdns_server_config_t`; `service_count` is the length of the list.
pub record ServerConfig : Type 0 where
  pub hostname : Text
  pub ipv4 : Text
  pub ipv6 : Text
  pub host_txt : Text
  pub services : List Service

-- `isspace` of the C locale.
unfoldable pub isspace : ℕ → Bool
isspace c = c == 32 || leb 9 c && leb c 13

abbrev pub cons_unless_space : ℕ → Text → Text
cons_unless_space c [] = if isspace c then [] else c ∷ []
cons_unless_space c (d ∷ ds) = c ∷ d ∷ ds

-- The second loop of `umdns_trim`, without the byte in front that `end > text` keeps.
unfoldable pub trim_end : Text → Text
trim_end [] = []
trim_end (c ∷ cs) = cons_unless_space c (trim_end cs)

-- The first loop of `umdns_trim`.
unfoldable pub trim_start : Text → Text
trim_start [] = []
trim_start (c ∷ cs) = if isspace c then trim_start cs else c ∷ cs

abbrev pub trim_rest : Text → Text
trim_rest [] = []
trim_rest (c ∷ cs) = c ∷ trim_end cs

-- `umdns_trim`.
unfoldable pub trim : Text → Text
trim text = trim_rest (trim_start text)

-- `umdns_server_config_init`.
abbrev pub server_config_init : ServerConfig
server_config_init = record {
  hostname = codes "umdns";
  ipv4 = codes "0.0.0.0";
  ipv6 = codes "::";
  host_txt = [];
  services = [];
}

-- `umdns_copy_value`: the text of `dst` after the call.
abbrev pub copy_value : Text → ℕ → Text → Text
copy_value dst zero src = dst
copy_value dst (suc n) src = snprintf (suc n) src

-- A service that `memset` has cleared.
abbrev pub service_init : Service
service_init = record { instance = []; type = []; host = []; port = 0; txt = [] }

abbrev pub map_suc : Option ℕ → Option ℕ
map_suc none = none
map_suc (some n) = some (n + 1)

-- The loop of `umdns_find_or_create_service`.
unfoldable pub find_service : List Service → Text → Option ℕ
find_service [] section_name = none
find_service (s ∷ ss) section_name =
    if text_eq s.instance section_name then some 0 else map_suc (find_service ss section_name)

-- The configuration and `service_index`.
pub record Loading : Type 0 where
  pub config : ServerConfig
  pub service_index : Option ℕ

abbrev pub create_service : ServerConfig → Text → Loading
create_service config section_name =
    if leb max_services (length config.services)
    then record { config = config; service_index = none }
    else (let s = record service_init { instance = copy_value [] max_name section_name } in
        record {
          config = record config { services = config.services ++ (s ∷ []) };
          service_index = some (length config.services);
        })

-- `umdns_find_or_create_service`.
unfoldable pub find_or_create_service : ServerConfig → Text → Loading
find_or_create_service config section_name = elim (find_service config.services section_name) [
  | some idx ↦ record { config = config; service_index = some idx }
  | none ↦ create_service config section_name
]

abbrev pub cons_first : ℕ → Option (Text × Text) → Option (Text × Text)
cons_first c none = none
cons_first c (some p) = some (c ∷ p.0, p.1)

-- The texts in front of and behind the byte that `strchr` finds.
unfoldable pub split_at : ℕ → Text → Option (Text × Text)
split_at b [] = none
split_at b (c ∷ cs) = if c == b then some ([], cs) else cons_first c (split_at b cs)

-- The value of the digits in front, behind `n`.
unfoldable pub digits : ℕ → Text → ℕ
digits n [] = n
digits n (c ∷ cs) = if leb b'0' c && leb c b'9' then digits (n * 10 + (c - b'0')) cs else n

-- `strtol` in base 10; a negative number is 0, and one above LONG_MAX is not cut, which the caller's
-- bounds do not tell apart.
abbrev pub signed_digits : Text → ℕ
signed_digits [] = 0
signed_digits (c ∷ cs) =
    if c == b'-' then 0 else if c == b'+' then digits 0 cs else digits 0 (c ∷ cs)

unfoldable pub strtol : Text → ℕ
strtol text = signed_digits (trim_start text)

-- What a line with a key does to the service of its section.
unfoldable pub set_key : Text → Text → Service → Service
set_key key value svc =
    if text_eq key (codes "type")
    then record svc { type = copy_value svc.type max_name value }
    else if text_eq key (codes "host")
    then record svc { host = copy_value svc.host max_name value }
    else if text_eq key (codes "port")
    then (if ltb 0 (strtol value) && leb (strtol value) 65535
        then record svc { port = strtol value }
        else svc)
    else if text_eq key (codes "txt")
    then record svc { txt = copy_value svc.txt max_txt value }
    else svc

-- A key in front of the first service section, or in another section, is dropped.
unfoldable pub load_key : Text → Text → Loading → Outcome Loading
load_key key value l = elim l.service_index [
  | none ↦ ok l
  | some idx ↦ elim (get_elem? l.config.services idx) [
    | none ↦ fault
    | some svc ↦
        let services = set l.config.services idx (set_key key value svc) in
        ok (record l { config = record l.config { services = services } })
  ]
]

-- A section line, from behind its '[' to in front of its ']'.
unfoldable pub load_section : Text → Loading → Loading
load_section name l =
    if text_eq (take 8 name) (codes "service ")
    then find_or_create_service l.config (drop 8 name)
    else record l { service_index = none }

-- One round of the loop of `umdns_server_config_load`, on the line without spaces around it.
unfoldable pub load_trimmed : Text → Loading → Outcome Loading
load_trimmed [] l = ok l
load_trimmed (c ∷ cs) l =
    if c == b';' || c == b'#'
    then ok l
    else if c == b'['
    then (elim (split_at b']' cs) [ none ↦ ok l | some p ↦ ok (load_section p.0 l) ])
    else (elim (split_at b'=' (c ∷ cs)) [ none ↦ ok l | some p ↦ load_key (trim p.0) (trim p.1) l ])

unfoldable pub load_lines : List Text → Loading → Outcome Loading
load_lines [] l = ok l
load_lines (line ∷ rest) l = load_trimmed (trim line) l >>= load_lines rest

-- `umdns_server_config_load` on a file that could be opened.
unfoldable pub server_config_load : List Text → ServerConfig → Outcome ServerConfig
server_config_load lines config =
    load_lines lines (record { config = config; service_index = none }) >>= λ l. ok l.config
