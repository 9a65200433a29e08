-- ===== src/Config/Safety.antt =====
-- `umdns_server_config_load` of src/common/config.c on any lines.
use umdns.Config.{
  map_suc, max_services, ServerConfig, copy_value, service_init, find_service, create_service,
  find_or_create_service, Loading, set_key, strtol, load_key, load_section, load_trimmed,
  load_lines, server_config_load, split_at, trim,
}
use umdns.Message.{Service, max_txt}
use umdns.Name.{max_name}
use umdns.Outcome.{Ensures-if, ok, Ensures, Ensures-bind}
use umdns.Prelude.{
  if_lem, ◌∷◌, ◌||◌, ◌==◌, ltb, leb, ◌&&◌, suc, zero, take, drop, get_elem?, set, ap, ◌==◌, ltb,
  leb, length, take, drop, All, length-append, get_elem?, set, length-take, ℕ, zero, suc, ◌+◌, ◌≤◌,
  ◌<◌, ◌≡◌, refl, ap, ◌&&◌, ◌||◌, Option, none, some, List, [], ◌∷◌, arith, if◌then◌else◌,
  All-append,
}
use umdns.Text.{Text, codes, text_eq}

-- Each text fits its array with a NUL behind it, and the port its 16 bits.
pub record IsService (s : Service) : Type 0 where
  pub instance_fits : length s.instance < max_name
  pub type_fits : length s.type < max_name
  pub host_fits : length s.host < max_name
  pub port_fits : s.port < 65536
  pub txt_fits : length s.txt < max_txt

-- The services fit the table, and each fits its struct.
pub record IsConfig (config : ServerConfig) : Type 0 where
  pub count : length config.services ≤ max_services
  pub fit : All IsService config.services

abbrev IsIndex : Option ℕ → ℕ → Type 0
IsIndex none n = Unit {0}
IsIndex (some idx) n = idx < n

-- The section that is open is one of the services.
record IsLoading (l : Loading) : Type 0 where
  loaded : IsConfig l.config
  index : IsIndex l.service_index (length l.config.services)

length-snprintf : (n : ℕ) (s : Text) → length (take n s) < n + 1
length-snprintf n s = omega (arith, length-take n s)

set_key-IsService : (key value : Text) (s : Service) → IsService s → IsService (set_key key value s)
unfolding set_key
set_key-IsService key value s h =
    let typed = record s { type = copy_value s.type max_name value } in
    let hosted = record s { host = copy_value s.host max_name value } in
    let ported = record s { port = strtol value } in
    let texted = record s { txt = copy_value s.txt max_txt value } in
    let valid = ltb 0 (strtol value) && leb (strtol value) 65535 in
    let txt = text_eq key (codes "txt") in
    if_lem IsService (text_eq key (codes "type")) typed _
      (λ e. record {
        instance_fits = h.instance_fits;
        type_fits = length-snprintf 255 value;
        host_fits = h.host_fits;
        port_fits = h.port_fits;
        txt_fits = h.txt_fits;
      })
      (λ e.
        if_lem IsService (text_eq key (codes "host")) hosted _
          (λ e. record {
            instance_fits = h.instance_fits;
            type_fits = h.type_fits;
            host_fits = length-snprintf 255 value;
            port_fits = h.port_fits;
            txt_fits = h.txt_fits;
          })
          (λ e.
            if_lem IsService (text_eq key (codes "port")) (if valid then ported else s)
              (if txt then texted else s)
              (λ e.
                if_lem IsService valid ported s
                  (λ e. record {
                    instance_fits = h.instance_fits;
                    type_fits = h.type_fits;
                    host_fits = h.host_fits;
                    port_fits = ground arith;
                    txt_fits = h.txt_fits;
                  })
                  (λ e. h))
              (λ e.
                if_lem IsService txt texted s
                  (λ e. record {
                    instance_fits = h.instance_fits;
                    type_fits = h.type_fits;
                    host_fits = h.host_fits;
                    port_fits = h.port_fits;
                    txt_fits = length-snprintf 511 value;
                  })
                  (λ e. h))))

map_suc-IsIndex : (o : Option ℕ) (n : ℕ) → IsIndex o n → IsIndex (map_suc o) (suc n)
map_suc-IsIndex none n h = tt
map_suc-IsIndex (some idx) n h = omega arith

find_service-IsIndex :
    (services : List Service) (name : Text) → IsIndex (find_service services name) (length services)
unfolding find_service
find_service-IsIndex [] name = tt
find_service-IsIndex (s ∷ ss) name =
    if_lem (λ (o : Option ℕ). IsIndex o (suc (length ss))) (text_eq s.instance name) _ _
      (λ e. omega arith) (λ e. map_suc-IsIndex _ _ (find_service-IsIndex ss name))

create_service-IsLoading :
    (config : ServerConfig) (name : Text) → IsConfig config → IsLoading (create_service config name)
create_service-IsLoading config name h =
    if_lem IsLoading (leb max_services (length config.services)) _ _
      (λ full. record { loaded = h; index = tt })
      (λ free.
        let s = record service_init { instance = copy_value [] max_name name } in
        let size = length-append config.services (s ∷ []) in
        record {
          loaded = record {
            count = ground (arith, size, h.count);
            fit = All-append IsService config.services (s ∷ []) h.fit (
              record {
                instance_fits = length-snprintf 255 name;
                type_fits = omega arith;
                host_fits = omega arith;
                port_fits = omega arith;
                txt_fits = omega arith;
              },
              tt,
            );
          };
          index = omega (arith, size);
        })

find_or_create_service-IsLoading :
    (config : ServerConfig) (name : Text)
    → IsConfig config
    → IsLoading (find_or_create_service config name)
unfolding find_or_create_service
find_or_create_service-IsLoading config name h =
    go (find_service config.services name) (find_service-IsIndex config.services name)
  where
    go :
        (o : Option ℕ)
        → IsIndex o (length config.services)
        → IsLoading (elim o [
          | some idx ↦ record { config = config; service_index = some idx }
          | none ↦ create_service config name
        ])
    go none i = create_service-IsLoading config name h
    go (some idx) i = record { loaded = h; index = i }

-- An index of the list is found, and what stands there can be replaced.
get_elem?-All :
    (services : List Service) (idx : ℕ)
    → idx < length services
    → All IsService services
    → (s : Service) × (get_elem? services idx ≡ some s) × IsService s
get_elem?-All [] idx h all = absurd (omega arith)
get_elem?-All (s ∷ ss) zero h all = (s, refl, all.0)
get_elem?-All (s ∷ ss) (suc idx) h all = get_elem?-All ss idx (omega arith) all.1

set-All :
    (services : List Service) (idx : ℕ) (s : Service)
    → All IsService services
    → IsService s
    → All IsService (set services idx s) × (length (set services idx s) ≡ length services)
set-All [] idx s all h = (tt, refl)
set-All (x ∷ xs) zero s all h = ((h, all.1), refl)
set-All (x ∷ xs) (suc idx) s all h =
    let (rest, size) = set-All xs idx s all.1 h in ((all.0, rest), ap suc size)

-- A key is set in the open section.
load_key-index :
    (key value : Text) (config : ServerConfig) (o : Option ℕ)
    → IsConfig config
    → IsIndex o (length config.services)
    → Ensures IsLoading (load_key key value (record { config = config; service_index = o }))
unfolding load_key
load_key-index key value config none h i = record { loaded = h; index = tt }
load_key-index key value config (some idx) h i =
    let (s, at, good) = get_elem?-All config.services idx i h.fit in
    let (fit, size) =
      set-All config.services idx (set_key key value s) h.fit
        (set_key-IsService key value s good) in
    rw (at, Ensures, load_key)
      (record {
        loaded = record { count = omega (arith, size, h.count); fit = fit };
        index = omega (arith, size);
      })

load_key-Ensures :
    (key value : Text) (l : Loading) → IsLoading l → Ensures IsLoading (load_key key value l)
load_key-Ensures key value l h = load_key-index key value l.config l.service_index h.loaded h.index

load_section-IsLoading : (name : Text) (l : Loading) → IsLoading l → IsLoading (load_section name l)
unfolding load_section
load_section-IsLoading name l h =
    if_lem IsLoading (text_eq (take 8 name) (codes "service ")) _ _
      (λ e. find_or_create_service-IsLoading l.config (drop 8 name) h.loaded)
      (λ e. record { loaded = h.loaded; index = tt })

section-Ensures :
    (o : Option (Text × Text)) (l : Loading)
    → IsLoading l
    → Ensures IsLoading (elim o [ none ↦ ok l | some p ↦ ok (load_section p.0 l) ])
section-Ensures none l h = h
section-Ensures (some p) l h = load_section-IsLoading p.0 l h

key-Ensures :
    (o : Option (Text × Text)) (l : Loading)
    → IsLoading l
    → Ensures IsLoading (elim o [ none ↦ ok l | some p ↦ load_key (trim p.0) (trim p.1) l ])
key-Ensures none l h = h
key-Ensures (some p) l h = load_key-Ensures (trim p.0) (trim p.1) l h

load_trimmed-Ensures :
    (line : Text) (l : Loading) → IsLoading l → Ensures IsLoading (load_trimmed line l)
unfolding load_trimmed
load_trimmed-Ensures [] l h = h
load_trimmed-Ensures (c ∷ cs) l h =
    Ensures-if IsLoading (c == b';' || c == b'#') _ _ (λ e. h)
      (λ e.
        Ensures-if IsLoading (c == b'[') _ _ (λ e. section-Ensures (split_at b']' cs) l h)
          (λ e. key-Ensures (split_at b'=' (c ∷ cs)) l h))

load_lines-Ensures :
    (lines : List Text) (l : Loading) → IsLoading l → Ensures IsLoading (load_lines lines l)
unfolding load_lines
load_lines-Ensures [] l h = h
load_lines-Ensures (line ∷ rest) l h =
    Ensures-bind IsLoading IsLoading (load_trimmed (trim line) l) (load_lines rest)
      (load_trimmed-Ensures (trim line) l h) (λ m k. load_lines-Ensures rest m k)

-- Whatever lines the file has, loading it ends without an access outside of the services in use, and
-- a configuration whose services fit the table and their structs stays such a one.
pub server_config_load-Ensures :
    (lines : List Text) (config : ServerConfig)
    → IsConfig config
    → Ensures IsConfig (server_config_load lines config)
unfolding server_config_load
server_config_load-Ensures lines config h =
    Ensures-bind IsLoading IsConfig _ _
      (load_lines-Ensures lines (record { config = config; service_index = none })
        (record { loaded = h; index = tt }))
      (λ l k. k.loaded)
