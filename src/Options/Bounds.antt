-- ===== src/Options/Bounds.antt =====
-- The options that a parser accepts, against the arrays and ranges that they have to fit.
use umdns.Name.{max_name}
use umdns.Options.{
  parse_int, int_in_range, sign, ParsedArgs, accepted, helped, refused, Setter, is_help, parse_loop,
  named_level,
}
use umdns.Config.{trim_start, digits}
use umdns.Log.{LogLevel}
use umdns.Options.Client.{
  ClientOptions, QueryMode, default_target, client_defaults, set_timeout, set_log_level, set_mode,
  set_client_option, one_mode, parse_client_args,
}
use umdns.Prelude.{
  if_lem, ltb, length, take, length-take, ℕ, ◌+◌, ◌*◌, ◌^◌, ◌≤◌, ◌<◌, Bool, Option, none, some,
  List, [], ◌∷◌, arith, if◌then◌else◌,
}
use umdns.Text.{Text, codes, text_eq}

-- What is accepted satisfies `P`.
abbrev pub Accepts : {O : Type 0} → (O → Type 0) → ParsedArgs O → Type 0
Accepts P (accepted o) = P o
Accepts P helped = Unit {0}
Accepts P refused = Unit {0}

abbrev pub Holds : {A : Type 0} → (A → Type 0) → Option A → Type 0
Holds P none = Unit {0}
Holds P (some a) = P a

pub parse_loop-Accepts :
    {O : Type 0} (P : O → Type 0) (set_option : Setter O)
    → ((arg value : Text) (o : O) → P o → Holds P (set_option arg value o))
    → (args : List Text) (o : O) → P o
    → Accepts P (parse_loop set_option args o)
unfolding parse_loop
parse_loop-Accepts P set_option keeps [] o h = h
parse_loop-Accepts P set_option keeps (arg ∷ []) o h =
    if_lem (Accepts P) (is_help arg) helped refused (λ e. tt) (λ e. tt)
parse_loop-Accepts {O = O} P set_option keeps (arg ∷ value ∷ rest) o h =
    if_lem (Accepts P) (is_help arg) helped _ (λ e. tt)
      (λ e.
        next (set_option arg value o) (keeps arg value o h)
          (λ o'. parse_loop-Accepts P set_option keeps rest o'))
  where
    next :
        (o : Option O)
        → Holds P o
        → ((o' : O) → P o' → Accepts P (parse_loop set_option rest o'))
        → Accepts P (elim o [ none ↦ refused | some o' ↦ parse_loop set_option rest o' ])
    next none h ih = tt
    next (some o') h ih = ih o' h

pub parse_int-bounds :
    (text : Text) (lo hi : ℕ) → Holds (λ n. (lo ≤ n) × (n ≤ hi)) (parse_int text lo hi)
unfolding parse_int
parse_int-bounds text lo hi = in_range (sign (trim_start text)).0 (sign (trim_start text)).1
  where
    in_range : (b : Bool) (t : Text) → Holds (λ n. (lo ≤ n) × (n ≤ hi)) (int_in_range b t lo hi)
    in_range b [] = tt
    in_range b (c ∷ cs) =
        if_lem (Holds (λ n. (lo ≤ n) × (n ≤ hi))) _ (some (digits 0 (c ∷ cs))) none
          (λ e. ground (arith, e)) (λ e. tt)

pub Holds-if :
    {A : Type 0} (P : A → Type 0) (b : Bool) (x y : Option A)
    → Holds P x
    → Holds P y
    → Holds P (if b then x else y)
Holds-if P b x y h k = if_lem (Holds P) b x y (λ e. h) (λ e. k)

pub length-copied : (n : ℕ) (s : Text) → length (take n s) < n + 1
length-copied n s = omega (arith, length-take n s)

-- The client's options as its main function uses them; `timeout_seconds * 1000` fits an `int`.
pub record IsClientOptions (o : ClientOptions) : Type 0 where
  pub interface_fits : length o.interface_name < 64
  pub target_fits : length o.target < max_name
  pub log_file_fits : length o.log_file < 256
  pub timeout_fits : o.timeout_seconds * 1000 < 2 ^ 31

set_timeout-IsClientOptions :
    (o : ClientOptions) (n : Option ℕ)
    → IsClientOptions o
    → Holds (λ n. (0 ≤ n) × (n ≤ 3600)) n
    → Holds IsClientOptions (set_timeout o n)
set_timeout-IsClientOptions o none h k = tt
set_timeout-IsClientOptions o (some n) h k = record {
  interface_fits = h.interface_fits;
  target_fits = h.target_fits;
  log_file_fits = h.log_file_fits;
  timeout_fits = omega (arith, k.1);
}

set_log_level-IsClientOptions :
    (o : ClientOptions) (l : Option LogLevel)
    → IsClientOptions o
    → Holds IsClientOptions (set_log_level o l)
set_log_level-IsClientOptions o none h = tt
set_log_level-IsClientOptions o (some l) h = record {
  interface_fits = h.interface_fits;
  target_fits = h.target_fits;
  log_file_fits = h.log_file_fits;
  timeout_fits = h.timeout_fits;
}

set_mode-IsClientOptions :
    (o : ClientOptions) (mode : QueryMode) (value : Text)
    → IsClientOptions o
    → IsClientOptions (set_mode o mode value)
set_mode-IsClientOptions o mode value h = record {
  interface_fits = h.interface_fits;
  target_fits = length-copied 255 value;
  log_file_fits = h.log_file_fits;
  timeout_fits = h.timeout_fits;
}

set_client_option-Holds :
    (arg value : Text) (o : ClientOptions)
    → IsClientOptions o
    → Holds IsClientOptions (set_client_option arg value o)
unfolding set_client_option
set_client_option-Holds arg value o h =
    Holds-if IsClientOptions (text_eq arg (codes "-i")) (some _) _
      (record {
        interface_fits = length-copied 63 value;
        target_fits = h.target_fits;
        log_file_fits = h.log_file_fits;
        timeout_fits = h.timeout_fits;
      })
      (Holds-if IsClientOptions (text_eq arg (codes "-t")) (set_timeout o (parse_int value 0 3600))
        _ (set_timeout-IsClientOptions o (parse_int value 0 3600) h (parse_int-bounds value 0 3600))
        (Holds-if IsClientOptions (text_eq arg (codes "-H")) (some _) _
          (set_mode-IsClientOptions o _ value h)
          (Holds-if IsClientOptions (text_eq arg (codes "-s")) (some _) _
            (set_mode-IsClientOptions o _ value h)
            (Holds-if IsClientOptions (text_eq arg (codes "--log-file")) (some _) _
              (record {
                interface_fits = h.interface_fits;
                target_fits = h.target_fits;
                log_file_fits = length-copied 255 value;
                timeout_fits = h.timeout_fits;
              })
              (Holds-if IsClientOptions (text_eq arg (codes "--log-level"))
                (set_log_level o (named_level value)) none
                (set_log_level-IsClientOptions o (named_level value) h) tt)))))

client_defaults-IsClientOptions : (host : Option Text) → IsClientOptions (client_defaults host)
client_defaults-IsClientOptions host = record {
  interface_fits = omega arith;
  target_fits = target host;
  log_file_fits = omega arith;
  timeout_fits = omega arith;
}
  where
    target : (host : Option Text) → length (default_target host) < max_name
    target none = omega arith
    target (some host) = length-copied 255 host

one_mode-Accepts :
    (p : ParsedArgs ClientOptions)
    → Accepts IsClientOptions p
    → Accepts (λ o. IsClientOptions o × (o.mode_count ≤ 1)) (one_mode p)
one_mode-Accepts (accepted o) h =
    if_lem (Accepts (λ o. IsClientOptions o × (o.mode_count ≤ 1))) (ltb 1 o.mode_count) refused
      (accepted o) (λ e. tt) (λ e. (h, ground (arith, e)))
one_mode-Accepts helped h = tt
one_mode-Accepts refused h = tt

-- Whatever the arguments and the host name are, options that the client accepts fit their arrays, name one
-- mode at most, and have a timeout whose milliseconds fit an `int`.
pub parse_client_args-Accepts :
    (host : Option Text) (args : List Text)
    → Accepts (λ o. IsClientOptions o × (o.mode_count ≤ 1)) (parse_client_args host args)
unfolding parse_client_args
parse_client_args-Accepts host args =
    one_mode-Accepts (parse_loop set_client_option args (client_defaults host)) (
      parse_loop-Accepts IsClientOptions set_client_option set_client_option-Holds args
        (client_defaults host) (client_defaults-IsClientOptions host))
