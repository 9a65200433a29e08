-- ===== src/Server/Addresses.antt =====
-- `discover_interface_addresses` of src/server/main.c against a search for each address by itself.
use umdns.Inet.{Inet}
use umdns.Prelude.{
  if_lem, take, Bool-cases, ◌≡◌, refl, sym, ap, ◌∙◌, inl, inr, true, ◌&&◌, Option, none, some, List,
  [], ◌∷◌, ◌++◌, if◌then◌else◌,
}
use umdns.Server.Discovery.{
  keep_first, value_size, is_candidate, is_skipped, Found, take_address, is_found, both_found,
  discover_loop, text_or, localhost4, localhost6, discover_interface_addresses,
}
use umdns.System.{Interface, InterfaceAddress, no_address, other_address, address4, address6}
use umdns.Text.{Text}

-- The text that `inet_ntop` writes, if it does not fail.
abbrev pub written : Option Text → List Text
written none = []
written (some t) = t ∷ []

abbrev pub texts4 : Inet → InterfaceAddress → List Text
texts4 net no_address = []
texts4 net other_address = []
texts4 net (address4 b) = written (net.ntop4 b value_size)
texts4 net (address6 b) = []

abbrev pub texts6 : Inet → Text → InterfaceAddress → List Text
texts6 net name no_address = []
texts6 net name other_address = []
texts6 net name (address4 b) = []
texts6 net name (address6 b) = if is_skipped name b then [] else written (net.ntop6 b value_size)

-- The IPv4 addresses of the entries that qualify, in order.
abbrev pub addresses4 : Inet → Text → List Interface → List Text
addresses4 net name [] = []
addresses4 net name (i ∷ is) =
    (if is_candidate name i then texts4 net i.addr else []) ++ addresses4 net name is

-- The IPv6 addresses of the entries that qualify and are not skipped, in order.
abbrev pub addresses6 : Inet → Text → List Interface → List Text
addresses6 net name [] = []
addresses6 net name (i ∷ is) =
    (if is_candidate name i then texts6 net name i.addr else []) ++ addresses6 net name is

-- The text of the first address, in an array of 256 bytes.
abbrev pub first_address : Text → List Text → Text
first_address default [] = default
first_address default (t ∷ ts) = take 255 t

abbrev head_text : List Text → Option Text
head_text [] = none
head_text (t ∷ ts) = some (take 255 t)

abbrev prefer : Option Text → Option Text → Option Text
prefer none o = o
prefer (some t) o = some t

prefer_assoc : (a b c : Option Text) → prefer (prefer a b) c ≡ prefer a (prefer b c)
prefer_assoc none b c = refl
prefer_assoc (some t) b c = refl

prefer-none : (a : Option Text) → prefer a none ≡ a
prefer-none none = refl
prefer-none (some t) = refl

head_text-append : (xs ys : List Text) → head_text (xs ++ ys) ≡ prefer (head_text xs) (head_text ys)
head_text-append [] ys = refl
head_text-append (x ∷ xs) ys = refl

keep_first-prefer :
    (found o : Option Text) → keep_first found o ≡ prefer found (head_text (written o))
keep_first-prefer found none = sym (prefer-none found)
keep_first-prefer none (some t) = refl
keep_first-prefer (some s) (some t) = refl

-- What is found already stays, and else the first address is taken.
abbrev joined : Found → List Text → List Text → Found
joined f xs ys = record {
  found4 = prefer f.found4 (head_text xs);
  found6 = prefer f.found6 (head_text ys);
}

joined_nil : (f : Found) → joined f [] [] ≡ f
joined_nil f = rw (prefer-none f.found4, prefer-none f.found6) refl

take_address-joined :
    (net : Inet) (name : Text) (a : InterfaceAddress) (f : Found)
    → take_address net name a f ≡ joined f (texts4 net a) (texts6 net name a)
unfolding take_address
take_address-joined net name no_address f = sym (joined_nil f)
take_address-joined net name other_address f = sym (joined_nil f)
take_address-joined net name (address4 b) f =
    rw (keep_first-prefer f.found4 (net.ntop4 b value_size), prefer-none f.found6) refl
take_address-joined net name (address6 b) f = elim (Bool-cases (is_skipped name b)) [
  | inl skipped ↦ rw (skipped, prefer-none f.found4, prefer-none f.found6) refl
  | inr taken ↦
      rw (taken, keep_first-prefer f.found6 (net.ntop6 b value_size), prefer-none f.found4) refl
]

both_found-joined : (f : Found) (xs ys : List Text) → both_found f ≡ true → joined f xs ys ≡ f
both_found-joined f xs ys h = go f.found4 f.found6 h
  where
    go :
        (a b : Option Text)
        → (is_found a && is_found b) ≡ true
        → (record { found4 = prefer a (head_text xs); found6 = prefer b (head_text ys) })
          ≡ (let g : Found = record { found4 = a; found6 = b } in g)
    go none b e = cc
    go (some s) none e = cc
    go (some s) (some t) e = refl

joined-append :
    (f : Found) (xs xs' ys ys' : List Text)
    → joined (joined f xs ys) xs' ys' ≡ joined f (xs ++ xs') (ys ++ ys')
joined-append f xs xs' ys ys' =
    rw
      (
        head_text-append xs xs',
        head_text-append ys ys',
        prefer_assoc f.found4 (head_text xs) (head_text xs'),
        prefer_assoc f.found6 (head_text ys) (head_text ys'),
      )
      refl

discover_loop-joined :
    (net : Inet) (name : Text) (is : List Interface) (f : Found)
    → discover_loop net name is f ≡ joined f (addresses4 net name is) (addresses6 net name is)
unfolding discover_loop
discover_loop-joined net name [] f = sym (joined_nil f)
discover_loop-joined net name (i ∷ is) f =
    let xs = if is_candidate name i then texts4 net i.addr else [] in
    let ys = if is_candidate name i then texts6 net name i.addr else [] in
    let g = if is_candidate name i then take_address net name i.addr f else f in
    let here : g ≡ joined f xs ys = elim (Bool-cases (is_candidate name i)) [
      | inl yes_candidate ↦ rw yes_candidate (take_address-joined net name i.addr f)
      | inr not_candidate ↦ rw not_candidate (sym (joined_nil f))
    ] in
    let after = joined-append f xs (addresses4 net name is) ys (addresses6 net name is) in
    if_lem
      (λ (r : Found). r ≡ joined f (xs ++ addresses4 net name is) (ys ++ addresses6 net name is))
      (both_found g) g (discover_loop net name is g)
      (λ both.
        sym (both_found-joined g (addresses4 net name is) (addresses6 net name is) both)
        ∙ ap (λ (r : Found). joined r (addresses4 net name is) (addresses6 net name is)) here
        ∙ after)
      (λ on.
        discover_loop-joined net name is g
        ∙ ap (λ (r : Found). joined r (addresses4 net name is) (addresses6 net name is)) here
        ∙ after)

text_or-first :
    (default : Text) (bs : List Text)
    → take 255 default ≡ default
    → text_or (head_text bs) default ≡ first_address default bs
text_or-first default [] e = e
text_or-first default (b ∷ bs) e = refl

-- On whatever list of interfaces, the loop that looks for both addresses at once and ends early finds what
-- two searches by themselves find: for each family the text of the first address, over all interfaces that
-- qualify, that is not skipped and that `inet_ntop` writes, or that of the loopback if there is none. The two
-- may be of different interfaces.
pub discover_interface_addresses-first :
    (net : Inet) (name : Text) (is : List Interface)
    → discover_interface_addresses net name (some is) ≡ (
      first_address localhost4 (addresses4 net name is),
      first_address localhost6 (addresses6 net name is),
    )
unfolding discover_interface_addresses
discover_interface_addresses-first net name is =
    rw (discover_loop-joined net name is (record { found4 = none; found6 = none })) (
      rw
        (
          text_or-first localhost4 (addresses4 net name is) refl,
          text_or-first localhost6 (addresses6 net name is) refl,
        )
        refl)
