-- ===== src/Queue/Fresh.antt =====
-- An inbox that chatSSE has purged, with its group ensured, gives what is sent from then on.
use astron_claw.Prelude.{
  ℕ, ◌≤◌, String, ◌≡◌, refl, sym, ap, ◌∙◌, true, Option, none, some, List, [], ◌++◌, map, arith,
  if◌then◌else◌,
}
use astron_claw.Redis.{Reply, ok, nil, failed}
use astron_claw.Queue.{StreamEntry, Streams, succeeded, exists_already, ensure_group, purge}
use astron_claw.Queue.Usage.{Use, Traffic, shown, count_sends, use_all, queue_of}
use astron_claw.Queue.Laws.{StreamLaws, cleared, is_there}
use astron_claw.Queue.Traffic.{use_all-Kept}

cleared-is_there :
    (w : Option (List StreamEntry)) → is_there (cleared w) ≡ true → cleared w ≡ some []
cleared-is_there none h = absurd (cc h)
cleared-is_there (some es) h = refl

module _ (R : Streams) (waiting : R.Server → String → String → Option (List StreamEntry))
    (size : R.Server → String → ℕ) (L : StreamLaws R waiting size) (max : ℕ) (queue group : String)
    (block : ℕ) where
  purged :
      (s : R.Server) (r : Reply ℕ)
      → (R.xtrim queue 0 s).0 ≡ r
      → succeeded r ≡ true
      → (waiting (R.xtrim queue 0 s).1 queue group ≡ cleared (waiting s queue group))
        × (size (R.xtrim queue 0 s).1 queue ≡ 0)
  purged s (ok n) e h = (L.xtrim-ok queue group n s e, L.xtrim-size queue n s e)
  purged s nil e h = absurd (cc h)
  purged s (failed x) e h = absurd (cc h)

  ensured :
      (w : Option (List StreamEntry)) (s : R.Server) (r : Reply Unit)
      → waiting s queue group ≡ cleared w
      → (R.xgroup_create queue group s).0 ≡ r
      → (if succeeded r then true else exists_already r) ≡ true
      → waiting (R.xgroup_create queue group s).1 queue group ≡ some []
  ensured w s (ok tt) c e h = L.xgroup_create-ok queue group s e
  ensured w s nil c e h = absurd (cc h)
  ensured w s (failed x) c e h =
      let (was, same) = L.xgroup_create-busy queue group x s e h in
      same ∙ c ∙ cleared-is_there w (ap is_there (sym c) ∙ was)

  -- Once an inbox was purged and its group ensured, without an error, its consumers take what is
  -- published from then on, each message once and in the order of publication, and nothing that
  -- was left before: what is taken, followed by what still waits, is what was published, with
  -- the ids and the texts. This holds for publications, reads by any consumers and
  -- acknowledgements in any order, while no publication or read fails and no more messages are
  -- published than the stream keeps.
  pub fresh_inbox-order :
      (us : List Use) (s : R.Server) (t : Traffic R)
      → (purge R queue s).0 ≡ true
      → (ensure_group R queue group (purge R queue s).1).0 ≡ true
      → count_sends us ≤ max
      → use_all R (queue_of max) queue group block us (record {
        server = (ensure_group R queue group (purge R queue s).1).1;
        sent = [];
        taken = [];
      })
        ≡ some t
      → (rest : List StreamEntry) × (waiting t.server queue group ≡ some rest)
        × (t.taken ++ map shown rest ≡ map shown t.sent)
  unfolding purge ensure_group
  fresh_inbox-order us s t p g room h =
      let (clear, zero_size) = purged s (R.xtrim queue 0 s).0 refl p in
      let s1 = (R.xtrim queue 0 s).1 in
      let k =
        use_all-Kept R waiting size L max queue group block [] us
          (record { server = (R.xgroup_create queue group s1).1; sent = []; taken = [] }) t
          (record {
            rest = [];
            waits =
                ensured (waiting s queue group) s1 (R.xgroup_create queue group s1).0 clear refl g;
            order = refl;
            room = omega (arith, room, zero_size, L.xgroup_create-size queue group s1);
          })
          h in
      (k.rest, k.waits, k.order)
