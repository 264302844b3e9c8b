-- ===== src/Queue/Laws.antt =====
-- What the queue relies on in Redis streams: which entries of a stream wait for a group, that is,
-- none of its consumers has read them, and how many entries a stream holds.
use astron_claw.Prelude.{
  ℕ, suc, ◌<◌, String, ◌≡◌, true, Option, none, some, List, [], ◌∷◌, ◌++◌, Bool, false,
}
use astron_claw.Prelude.Int.{pos}
use astron_claw.Text.{contains}
use astron_claw.Redis.{ok, nil, failed}
use astron_claw.Queue.{StreamEntry, Streams, first_message}

abbrev pub added : StreamEntry → Option (List StreamEntry) → Option (List StreamEntry)
added e none = none
added e (some es) = some (es ++ e ∷ [])

abbrev pub cleared : Option (List StreamEntry) → Option (List StreamEntry)
cleared none = none
cleared (some es) = some []

abbrev pub is_there : Option (List StreamEntry) → Bool
is_there none = false
is_there (some es) = true

-- `waiting s k g` is none where the group does not exist.
pub record StreamLaws (R : Streams)
    (waiting : R.Server → String → String → Option (List StreamEntry))
    (size : R.Server → String → ℕ) : Type 0 where
  -- `MAXLEN ~ n` removes no entry while there are at most n
  pub xadd-ok :
      (k g m id : String) (max : ℕ) (s : R.Server)
      → (R.xadd k (pos max) m s).0 ≡ ok id
      → size s k < max
      → waiting (R.xadd k (pos max) m s).1 k g ≡ added (id, some m) (waiting s k g)
  pub xadd-size :
      (k m id : String) (max : ℕ) (s : R.Server)
      → (R.xadd k (pos max) m s).0 ≡ ok id
      → size s k < max
      → size (R.xadd k (pos max) m s).1 k ≡ suc (size s k)
  -- a read takes the entry that has waited longest
  pub xread_group-found :
      (k g c : String) (b : ℕ) (streams : List (List StreamEntry)) (e : StreamEntry) (s : R.Server)
      → (R.xread_group k g c b s).0 ≡ ok streams
      → first_message streams ≡ some e
      → (es : List StreamEntry) × (waiting s k g ≡ some (e ∷ es))
        × (waiting (R.xread_group k g c b s).1 k g ≡ some es)
  pub xread_group-none :
      (k g c : String) (b : ℕ) (streams : List (List StreamEntry)) (s : R.Server)
      → (R.xread_group k g c b s).0 ≡ ok streams
      → first_message streams ≡ none
      → (waiting s k g ≡ some []) × (waiting (R.xread_group k g c b s).1 k g ≡ some [])
  pub xread_group-nil :
      (k g c : String) (b : ℕ) (s : R.Server)
      → (R.xread_group k g c b s).0 ≡ nil
      → (waiting s k g ≡ some []) × (waiting (R.xread_group k g c b s).1 k g ≡ some [])
  pub xread_group-no_group :
      (k g c : String) (b : ℕ) (e : String) (s : R.Server)
      → (R.xread_group k g c b s).0 ≡ failed e
      → contains e "NOGROUP" ≡ true
      → (waiting s k g ≡ none) × (waiting (R.xread_group k g c b s).1 k g ≡ none)
  pub xread_group-size :
      (k g c : String) (b : ℕ) (s : R.Server) → size (R.xread_group k g c b s).1 k ≡ size s k
  pub xack-same : (k g id : String) (s : R.Server) → waiting (R.xack k g id s).1 k g ≡ waiting s k g
  pub xack-size : (k g id : String) (s : R.Server) → size (R.xack k g id s).1 k ≡ size s k
  pub xtrim-ok :
      (k g : String) (n : ℕ) (s : R.Server)
      → (R.xtrim k 0 s).0 ≡ ok n
      → waiting (R.xtrim k 0 s).1 k g ≡ cleared (waiting s k g)
  pub xtrim-size :
      (k : String) (n : ℕ) (s : R.Server) → (R.xtrim k 0 s).0 ≡ ok n → size (R.xtrim k 0 s).1 k ≡ 0
  -- a group that starts at `$` waits for nothing yet
  pub xgroup_create-ok :
      (k g : String) (s : R.Server)
      → (R.xgroup_create k g s).0 ≡ ok tt
      → waiting (R.xgroup_create k g s).1 k g ≡ some []
  pub xgroup_create-busy :
      (k g e : String) (s : R.Server)
      → (R.xgroup_create k g s).0 ≡ failed e
      → contains e "BUSYGROUP" ≡ true
      → (is_there (waiting s k g) ≡ true) × (waiting (R.xgroup_create k g s).1 k g ≡ waiting s k g)
  pub xgroup_create-size :
      (k g : String) (s : R.Server) → size (R.xgroup_create k g s).1 k ≡ size s k
