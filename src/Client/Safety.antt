-- ===== src/Client/Safety.antt =====
-- `main` of src/client/main.c from its start to its end, on any kernel.
use umdns.Response.Safety.{build_query-Ensures}
use umdns.Wire.Room.{InRoom}
use umdns.Options.{ParsedArgs, accepted, helped, refused}
use umdns.Options.Client.{parse_client_args}
use umdns.Query.{build_query}
use umdns.Log.{null}
use umdns.Options.{accepted, ParsedArgs}
use umdns.Outcome.{ok}
use umdns.Table.{results_equal, deduplicate_results, Kept, is_duplicate}
use umdns.Table.Distinct.{
  length-distinct, results_equal_iff, deduplicate_results-distinct, IsDistinct,
}
use umdns.Program.Resources.{
  send_if-Quiet, with_listeners-Ends, with_log-Ends, InProgram-IsSame, finish_program-IsClean, Ends,
  InProgram,
}
use umdns.Browser.{max_results}
use umdns.Client.{
  with_listeners, parse_client_args, query_type, gethostname, build_query, Text, run_client,
  query_and_report, client_main, ask, deduplicate_results, ipv6, Kept, ipv4, Writer, report,
  ClientOptions, client_loop,
}
use umdns.Message.{Result}
use umdns.Prelude.{
  ap, take, take_all, lt→ltb, ltb, ◌*◌, refl, ◌∙◌, inl, inr, ◌⊎◌, ◌++◌, ltb, length, ℕ, ◌≤◌, ◌≡◌,
  true, Option, none, some, List, [], ◌∷◌, ◌++◌, arith, if◌then◌else◌,
}
use umdns.Program.{send_if, packet_size, with_listeners, Listeners}
use umdns.Socket.Resources.{descriptors}
use umdns.Socket.Messages.{IsKernel}
use umdns.System.Laws.{Post-run_outcome, Post-weaken, Post-bind, Post}
use umdns.System.Resources.{IsSame-trans, last_printed, IsSame}
use umdns.System.{gethostname, Run, ◌>>=◌, World, print_results, Kernel, run_outcome}
use umdns.Text.{Text}
use umdns.Client.Run.{IsFit, client_loop-Quiet}

-- The rows that the duplicates are taken out of are left in part, and not all are taken.
kept_lem :
    (r : Result) (rs : List Result)
    → (d : Kept) × (deduplicate_results (r ∷ rs) (length (r ∷ rs)) ≡ ok d)
      × IsDistinct (take d.write_idx d.results)
      × (1 ≤ length (take d.write_idx d.results))
      × (length (take d.write_idx d.results) ≤ length (r ∷ rs))
unfolding is_duplicate
kept_lem r rs =
    let (d, run, same, once, found) =
      deduplicate_results-distinct (r ∷ rs) (length (r ∷ rs)) (omega arith) in
    let whole : take (length (r ∷ rs)) (r ∷ rs) ≡ r ∷ rs =
      take_all (length (r ∷ rs)) (r ∷ rs) (omega arith) in
    let self : results_equal r r ≡ true = (results_equal_iff r r).1 refl in
    let here : is_duplicate r (take d.write_idx d.results) ≡ true =
      found r ∙ ap (λ (xs : List Result). is_duplicate r xs) whole ∙ rw self refl in
    let short : length (take d.write_idx d.results) ≤ length (r ∷ rs) =
      rw (same, whole) (omega (arith, length-distinct [] (r ∷ rs))) in
    (d, run, once, nonempty r (take d.write_idx d.results) here, short)
  where
    nonempty : (r : Result) (ks : List Result) → is_duplicate r ks ≡ true → 1 ≤ length ks
    nonempty r [] e = cc
    nonempty r (x ∷ ks) e = omega arith

-- The status is 0 or 1. No table is printed, or one with rows, 256 at most and none twice; and then the
-- status is 0.
abbrev pub ClientSays : Option (List Result) → ℕ → Option (List Result) → Type 0
ClientSays before status printed =
    (status ≤ 1)
    × ((printed ≡ before)
        ⊎ ((rows : List Result) × (printed ≡ some rows)
            × (status ≡ 0)
            × (1 ≤ length rows)
            × (length rows ≤ max_results)
            × IsDistinct rows))

module _ (k : Kernel) (good : IsKernel k) (w : World) where
  report-Ends :
      (l : Listeners) (rows : List Result) (v : World)
      → IsFit rows
      → InProgram (descriptors l.fd6 ++ descriptors l.fd4) w v
      → last_printed v.history ≡ last_printed w.history
      → Post (Ends (ClientSays (last_printed w.history)) w) (report k l rows v)
  unfolding report
  report-Ends l [] v fit h e =
      finish_program-IsClean k (ClientSays (last_printed w.history)) l 1 w v h (omega arith, inl e)
  report-Ends l (r ∷ rs) v fit h e =
      let (d, run, once, some_rows, few) = kept_lem r rs in
      let rows = take d.write_idx d.results in
      let code : ℕ = if ltb 0 (length rows) then 0 else 1 in
      let status : code ≡ 0 = rw (lt→ltb 0 (length rows) some_rows) refl in
      rw (run, status)
        (finish_program-IsClean k (ClientSays (last_printed w.history)) l 0 w
          (record v { history = print_results rows ∷ v.history })
          (record { fds = h.fds; files = h.files; flagged = h.flagged })
          (omega arith, inr (rows, refl, refl, some_rows, omega (arith, few, fit.0), once)))

  ask-Ends :
      (o : ClientOptions) (l : Listeners) (q : Option Writer) (v : World)
      → InProgram (descriptors l.fd6 ++ descriptors l.fd4) w v
      → last_printed v.history ≡ last_printed w.history
      → Post (Ends (ClientSays (last_printed w.history)) w) (ask k o l q v)
  unfolding ask
  ask-Ends o l none v h e =
      finish_program-IsClean k (ClientSays (last_printed w.history)) l 1 w v h (omega arith, inl e)
  ask-Ends o l (some q) v h e =
      let left = descriptors l.fd6 ++ descriptors l.fd4 in
      let bytes = take q.offset q.out in
      let loop = client_loop k (o.timeout_seconds * 1000) l (o.timeout_seconds * 1000) [] in
      let P = Ends (ClientSays (last_printed w.history)) w in
      Post-bind (λ u v'. Unit {0} × IsSame v v') P (send_if k ipv4 l.fd4 bytes v)
        (λ _. send_if k ipv6 l.fd6 bytes >>= λ _. loop >>= report k l)
        (send_if-Quiet k ipv4 l.fd4 bytes v)
        (λ _ v1 s1.
          Post-bind (λ u v'. Unit {0} × IsSame v1 v') P (send_if k ipv6 l.fd6 bytes v1)
            (λ _. loop >>= report k l) (send_if-Quiet k ipv6 l.fd6 bytes v1)
            (λ _ v2 s2.
              Post-bind (λ rows v'. IsFit rows × IsSame v2 v') P (loop v2) (report k l)
                (client_loop-Quiet k good (o.timeout_seconds * 1000) l (o.timeout_seconds * 1000) []
                  (omega arith) (omega arith, tt) v2)
                (λ rows v3 s3.
                  let same = IsSame-trans v v2 v3 (IsSame-trans v v1 v2 s1.1 s2.1) s3.1 in
                  report-Ends l rows v3 s3.0 (InProgram-IsSame left w v v3 h same)
                    (same.printed ∙ e))))

  query_and_report-Ends :
      (o : ClientOptions) (l : Listeners) (v : World)
      → InProgram (descriptors l.fd6 ++ descriptors l.fd4) w v
      → last_printed v.history ≡ last_printed w.history
      → Post (Ends (ClientSays (last_printed w.history)) w) (query_and_report k o l v)
  unfolding query_and_report
  query_and_report-Ends o l v h e =
      Post-bind (λ q v'. v' ≡ v) (Ends (ClientSays (last_printed w.history)) w)
        (run_outcome (build_query (query_type o.mode) (some o.target) packet_size) v) (ask k o l)
        (Post-run_outcome (InRoom packet_size) _ (λ q v'. v' ≡ v) v
          (build_query-Ensures packet_size (query_type o.mode) (some o.target)) (λ q p. refl) refl)
        (λ q v' same. rw same (ask-Ends o l q v h e))

-- The end of a run that started in a world that differs by calls which open nothing.
Ends-IsSame :
    (w v : World) (r : Run ℕ)
    → IsSame w v
    → Post (Ends (ClientSays (last_printed v.history)) v) r
    → Post (Ends (ClientSays (last_printed w.history)) w) r
Ends-IsSame w v r h e =
    Post-weaken (Ends (ClientSays (last_printed v.history)) v)
      (Ends (ClientSays (last_printed w.history)) w) r e
      (λ status u c. (
        record { fds = c.0.fds ∙ h.fds; files = c.0.files ∙ h.files; stream = c.0.stream },
        rw h.printed at c.1,
      ))

run_client-Ends :
    (k : Kernel) (p : ParsedArgs ClientOptions) (v : World)
    → IsKernel k
    → v.logger.stream ≡ null
    → Post (Ends (ClientSays (last_printed v.history)) v) (run_client k p v)
unfolding run_client
run_client-Ends k helped v good s =
    (record { fds = refl; files = refl; stream = s }, (omega arith, inl refl))
run_client-Ends k refused v good s =
    (record { fds = refl; files = refl; stream = s }, (omega arith, inl refl))
run_client-Ends k (accepted o) v good s =
    let P = ClientSays (last_printed v.history) in
    with_log-Ends k P o.log_level o.log_file
      (with_listeners k o.interface_name (query_and_report k o)) v (omega arith, inl refl)
      (λ u h e.
        with_listeners-Ends k P o.interface_name (query_and_report k o) v u h (omega arith, inl e)
          (λ l t g f. query_and_report-Ends k good v o l t g (f ∙ e)))

-- Whatever the arguments are, and whatever the kernel answers, the client ends, touches no memory outside of
-- its arrays, and leaves no descriptor and no file open; its status is 0 or 1; and it prints no table, or
-- one of 1 to 256 rows of which none stands twice, and then the status is 0.
pub client_main-Ends :
    (k : Kernel) (args : List Text) (w : World)
    → IsKernel k
    → w.logger.stream ≡ null
    → Post (Ends (ClientSays (last_printed w.history)) w) (client_main k args w)
unfolding client_main
client_main-Ends k args w good s =
    let host = k.gethostname_answer w.history 255 in
    let v : World = record w { history = gethostname host ∷ w.history } in
    Ends-IsSame w v (run_client k (parse_client_args host args) v)
      (record {
        fds = refl;
        files = refl;
        logger = refl;
        printed = refl;
        later = omega arith;
        flagged = λ f. f;
      })
      (run_client-Ends k (parse_client_args host args) v good s)
