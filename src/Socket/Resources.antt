-- ===== src/Socket/Resources.antt =====
-- The descriptors that the functions of src/common/socket.c leave open.
use umdns.Prelude.{ℕ, ℕ, ◌≡◌, refl, ◌∙◌, Bool, true, false, Option, none, some, List, [], ◌∷◌, ◌++◌}
use umdns.Socket.{
  set_common_options, sys_setsockopt, sys_bind, mcast_address, try_bind_device, or_close,
  interface_index, join_mcast, listen_ipv4, listen_ipv6, on_socket, create_ipv4_listener,
  create_ipv6_listener,
}
use umdns.System.{
  Family, SocketOption, Kernel, World, Sys, pure, ◌>>=◌, ipv4, ipv6, reuse_address, v6_only,
  join_group, bind_to_device, socket, setsockopt, bind, if_nametoindex,
}
use umdns.System.Laws.{Post, Post-bind, Post-weaken}
use umdns.System.Resources.{
  IsFlagged, remove_cons, open_fds, open_files, last_printed, remove_cons, IsSame, Quiet,
  Quiet-pure, Quiet-bind, Quiet-event,
}
use umdns.Text.{Bytes, Text}

abbrev pub descriptors : Option ℕ → List ℕ
descriptors none = []
descriptors (some fd) = fd ∷ []

-- The descriptors that are open then, all else being as it was.
pub record Leaves (left : List ℕ) (w w' : World) : Type 0 where
  pub fds : open_fds w'.history ≡ left
  pub files : open_files w'.history ≡ open_files w.history
  pub logger : w'.logger ≡ w.logger
  pub printed : last_printed w'.history ≡ last_printed w.history
  pub flagged : IsFlagged w → IsFlagged w'

pub Leaves-after : (fds : List ℕ) (u v w : World) → IsSame u v → Leaves fds v w → Leaves fds u w
Leaves-after fds u v w h k = record {
  fds = k.fds;
  files = k.files ∙ h.files;
  logger = k.logger ∙ h.logger;
  printed = k.printed ∙ h.printed;
  flagged = λ f. k.flagged (h.flagged f);
}

-- With `fd` the newest descriptor, the call returns it, or returns -1 and has closed it.
abbrev Keeps : ℕ → Sys (Option ℕ) → Type 0
Keeps fd m =
    (l : List ℕ) (w : World)
    → open_fds w.history ≡ fd ∷ l
    → Post (λ o w'. Leaves (descriptors o ++ l) w w') (m w)

Keeps-bind :
    {A : Type 0} (fd : ℕ) (m : Sys A) (f : A → Sys (Option ℕ))
    → Quiet (λ a. Unit {0}) m
    → ((a : A) → Keeps fd (f a))
    → Keeps fd (m >>= f)
Keeps-bind fd m f h k l w e =
    Post-bind (λ a w'. Unit {0} × IsSame w w') (λ o w'. Leaves (descriptors o ++ l) w w') (m w) f
      (h w)
      (λ a v p.
        Post-weaken (λ o w'. Leaves (descriptors o ++ l) v w')
          (λ o w'. Leaves (descriptors o ++ l) w w') (f a v) (k a l v (p.1.fds ∙ e))
          (λ o u q. Leaves-after (descriptors o ++ l) w v u p.1 q))

module _ (k : Kernel) where
  setsockopt-Quiet :
      (fd : ℕ) (option : SocketOption) → Quiet (λ b. Unit {0}) (sys_setsockopt k fd option)
  setsockopt-Quiet fd option =
      Quiet-event (λ b. Unit {0}) (λ h. k.setsockopt_answer h fd option) (setsockopt fd option)
        (λ h. tt) (λ a h. refl) (λ a h. refl) (λ a h. refl) (λ a h. refl)

  bind-Quiet : (fd : ℕ) (family : Family) → Quiet (λ b. Unit {0}) (sys_bind k fd family)
  bind-Quiet fd family =
      Quiet-event (λ b. Unit {0}) (λ h. k.bind_answer h fd family) (bind fd family) (λ h. tt)
        (λ a h. refl) (λ a h. refl) (λ a h. refl) (λ a h. refl)

  try_bind_device-Quiet : (fd : ℕ) (name : Text) → Quiet (λ b. Unit {0}) (try_bind_device k fd name)
  unfolding try_bind_device
  try_bind_device-Quiet fd [] = Quiet-pure (λ b. Unit {0}) tt tt
  try_bind_device-Quiet fd (c ∷ cs) =
      Quiet-bind (λ b. Unit {0}) (λ b. Unit {0}) (sys_setsockopt k fd (bind_to_device (c ∷ cs)))
        (λ b. pure tt) (setsockopt-Quiet fd (bind_to_device (c ∷ cs)))
        (λ b p. Quiet-pure (λ b. Unit {0}) tt tt)

  interface_index-Quiet : (name : Text) → Quiet (λ b. Unit {0}) (interface_index k name)
  unfolding interface_index
  interface_index-Quiet [] = Quiet-pure {A = ℕ} (λ b. Unit {0}) 0 tt
  interface_index-Quiet (c ∷ cs) =
      Quiet-event (λ b. Unit {0}) (λ h. k.if_nametoindex_answer h (c ∷ cs))
        (if_nametoindex (c ∷ cs)) (λ h. tt) (λ a h. refl) (λ a h. refl) (λ a h. refl) (λ a h. refl)

  or_close-Keeps :
      (fd : ℕ) (b : Bool) (m : Sys (Option ℕ)) → Keeps fd m → Keeps fd (or_close k fd b m)
  or_close-Keeps fd true m h l w e = h l w e
  or_close-Keeps fd false m h l w e = record {
    fds = rw e (remove_cons fd l);
    files = refl;
    logger = refl;
    printed = refl;
    flagged = λ f. f;
  }

  join_mcast-Keeps :
      (fd : ℕ) (family : Family) (name : Text) → Keeps fd (join_mcast k fd family name)
  unfolding join_mcast
  join_mcast-Keeps fd family name = go (mcast_address k family)
    where
      done : Keeps fd (try_bind_device k fd name >>= λ _. pure (some fd))
      done =
          Keeps-bind fd (try_bind_device k fd name) (λ _. pure (some fd))
            (try_bind_device-Quiet fd name)
            (λ a l w e. record {
              fds = e;
              files = refl;
              logger = refl;
              printed = refl;
              flagged = λ f. f;
            })

      go :
          (o : Option Bytes)
          → Keeps fd (elim o [
            | none ↦ or_close k fd false (pure none)
            | some address ↦ interface_index k name >>= λ index.
                sys_setsockopt k fd (join_group address index) >>= λ joined.
                or_close k fd joined (try_bind_device k fd name >>= λ _. pure (some fd))
          ])
      go none = or_close-Keeps fd false (try_bind_device k fd name >>= λ _. pure (some fd)) done
      go (some address) =
          Keeps-bind fd (interface_index k name) _ (interface_index-Quiet name) (λ index.
            Keeps-bind fd (sys_setsockopt k fd (join_group address index)) _
              (setsockopt-Quiet fd (join_group address index))
              (λ joined. or_close-Keeps fd joined _ done))

  set_common_options-Quiet : (fd : ℕ) → Quiet (λ b. Unit {0}) (set_common_options k fd)
  unfolding set_common_options
  set_common_options-Quiet fd = setsockopt-Quiet fd reuse_address

  bound-Keeps :
      (fd : ℕ) (family : Family) (name : Text)
      → Keeps fd (
          set_common_options k fd >>= λ shared.
          or_close k fd shared
            (sys_bind k fd family >>= λ bound. or_close k fd bound (join_mcast k fd family name)))
  bound-Keeps fd family name =
      Keeps-bind fd (set_common_options k fd) _ (set_common_options-Quiet fd) (λ shared.
        or_close-Keeps fd shared _ (
          Keeps-bind fd (sys_bind k fd family) _ (bind-Quiet fd family)
            (λ bound. or_close-Keeps fd bound _ (join_mcast-Keeps fd family name))))

  listen_ipv4-Keeps : (name : Text) (fd : ℕ) → Keeps fd (listen_ipv4 k name fd)
  unfolding listen_ipv4
  listen_ipv4-Keeps name fd = bound-Keeps fd ipv4 name

  listen_ipv6-Keeps : (name : Text) (fd : ℕ) → Keeps fd (listen_ipv6 k name fd)
  unfolding listen_ipv6
  listen_ipv6-Keeps name fd =
      Keeps-bind fd (sys_setsockopt k fd v6_only) _ (setsockopt-Quiet fd v6_only)
        (λ only. or_close-Keeps fd only _ (bound-Keeps fd ipv6 name))

  on_socket-Leaves :
      (family : Family) (f : ℕ → Sys (Option ℕ)) (w : World) (o : Option ℕ)
      → ((fd : ℕ) → Keeps fd (f fd))
      → Post
          (λ o w'. Leaves (descriptors o ++ open_fds w.history) w w')
          (on_socket k f o (record w { history = socket family o ∷ w.history }))
  on_socket-Leaves family f w none h = record {
    fds = refl;
    files = refl;
    logger = refl;
    printed = refl;
    flagged = λ f. f;
  }
  on_socket-Leaves family f w (some fd) h =
      let v : World = record w { history = socket family (some fd) ∷ w.history } in
      Post-weaken (λ o w'. Leaves (descriptors o ++ open_fds w.history) v w')
        (λ o w'. Leaves (descriptors o ++ open_fds w.history) w w') (f fd v)
        (h fd (open_fds w.history) v refl)
        (λ o u h. record {
          fds = h.fds;
          files = h.files;
          logger = h.logger;
          printed = h.printed;
          flagged = h.flagged;
        })

  -- A listener that is returned is open, and behind a failure no descriptor is; whatever the kernel answers.
  pub create_ipv4_listener-Leaves :
      (name : Text) (w : World)
      → Post
          (λ o w'. Leaves (descriptors o ++ open_fds w.history) w w')
          (create_ipv4_listener k name w)
  unfolding create_ipv4_listener
  create_ipv4_listener-Leaves name w =
      on_socket-Leaves ipv4 (listen_ipv4 k name) w (k.socket_answer w.history ipv4)
        (listen_ipv4-Keeps name)

  pub create_ipv6_listener-Leaves :
      (name : Text) (w : World)
      → Post
          (λ o w'. Leaves (descriptors o ++ open_fds w.history) w w')
          (create_ipv6_listener k name w)
  unfolding create_ipv6_listener
  create_ipv6_listener-Leaves name w =
      on_socket-Leaves ipv6 (listen_ipv6 k name) w (k.socket_answer w.history ipv6)
        (listen_ipv6-Keeps name)
