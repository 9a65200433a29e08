-- ===== src/Options/Refusal.antt =====
-- The early ends of the argument parser of src/client/main.c.
use umdns.Options.{ParsedArgs, accepted, helped, refused, Setter, is_help, parse_loop}
use umdns.Options.Client.{
  ClientOptions, client_defaults, set_client_option, one_mode, parse_client_args,
}
use umdns.Prelude.{
  ltb, ◌≡◌, refl, ap, ◌⊎◌, inl, inr, Bool, true, false, ◌||◌, Option, none, some, List, [], ◌∷◌,
  ◌++◌, arith, if◌then◌else◌,
}
use umdns.Text.{Text, codes, text_eq}

-- The loop goes on from where it was.
parse_loop-append :
    {O : Type 0} (set_option : Setter O) (xs ys : List Text) (o o' : O)
    → parse_loop set_option xs o ≡ accepted o'
    → parse_loop set_option (xs ++ ys) o ≡ parse_loop set_option ys o'
unfolding parse_loop
parse_loop-append set_option [] ys o o' h =
    let same : o ≡ o' = cc in ap (λ x. parse_loop set_option ys x) same
parse_loop-append set_option (arg ∷ []) ys o o' h = absurd (ground (arith, h))
parse_loop-append {O = O} set_option (arg ∷ value ∷ rest) ys o o' h =
    go (is_help arg) (set_option arg value o) h (λ m e. parse_loop-append set_option rest ys m o' e)
  where
    go :
        (b : Bool) (n : Option O)
        → (if b
            then helped
            else (elim n [ none ↦ refused | some m ↦ parse_loop set_option rest m ]))
          ≡ accepted o'
        → ((m : O)
            → parse_loop set_option rest m ≡ accepted o'
            → parse_loop set_option (rest ++ ys) m ≡ parse_loop set_option ys o')
        → (if b
            then helped
            else (elim n [ none ↦ refused | some m ↦ parse_loop set_option (rest ++ ys) m ]))
          ≡ parse_loop set_option ys o'
    go true n e ih = cc
    go false none e ih = cc
    go false (some m) e ih = ih m e

-- One of the six options that take a value.
abbrev pub is_client_option : Text → Bool
is_client_option arg =
    text_eq arg (codes "-i")
    || text_eq arg (codes "-t")
    || text_eq arg (codes "-H")
    || text_eq arg (codes "-s")
    || text_eq arg (codes "--log-file")
    || text_eq arg (codes "--log-level")

set_client_option-none :
    (arg value : Text) (o : ClientOptions)
    → is_client_option arg ≡ false
    → set_client_option arg value o ≡ none
unfolding set_client_option
set_client_option-none arg value o h = ground arith

one_mode-accepted :
    (p : ParsedArgs ClientOptions) (o : ClientOptions) → one_mode p ≡ accepted o → p ≡ accepted o
one_mode-accepted (accepted p) o h = go (ltb 1 p.mode_count) h
  where
    go : (b : Bool) → (if b then refused else accepted p) ≡ accepted o → accepted p ≡ accepted o
    go true e = cc
    go false e = e
one_mode-accepted helped o h = h
one_mode-accepted refused o h = h

loop-help :
    (o : ClientOptions) (arg : Text) (rest : List Text)
    → is_help arg ≡ true
    → parse_loop set_client_option (arg ∷ rest) o ≡ helped
unfolding parse_loop
loop-help o arg [] e = rw e refl
loop-help o arg (v ∷ vs) e = rw e refl

loop-refused :
    (o : ClientOptions) (arg : Text) (rest : List Text)
    → is_help arg ≡ false
    → (is_client_option arg ≡ false) ⊎ (rest ≡ [])
    → parse_loop set_client_option (arg ∷ rest) o ≡ refused
unfolding parse_loop
loop-refused o arg [] e bad = rw e refl
loop-refused o arg (v ∷ vs) e (inl unknown) = rw (e, set_client_option-none arg v o unknown) refl
loop-refused o arg (v ∷ vs) e (inr none_left) = cc

-- Behind arguments that the client accepts, a request for help ends the parser with the help text; an
-- argument that is neither that nor an option is refused, and so is an option without its value.
pub parse_client_args-refused :
    (host : Option Text) (before : List Text) (o : ClientOptions) (arg : Text) (rest : List Text)
    → parse_client_args host before ≡ accepted o
    → (is_help arg ≡ true → parse_client_args host (before ++ (arg ∷ rest)) ≡ helped)
      × (is_help arg ≡ false
          → (is_client_option arg ≡ false) ⊎ (rest ≡ [])
          → parse_client_args host (before ++ (arg ∷ rest)) ≡ refused)
unfolding parse_client_args
parse_client_args-refused host before o arg rest h =
    let loop = parse_loop set_client_option before (client_defaults host) in
    let there : loop ≡ accepted o = one_mode-accepted loop o h in
    let goes_on =
      parse_loop-append set_client_option before (arg ∷ rest) (client_defaults host) o there in
    (
      λ help. rw goes_on (ap one_mode (loop-help o arg rest help)),
      λ plain bad. rw goes_on (ap one_mode (loop-refused o arg rest plain bad)),
    )
