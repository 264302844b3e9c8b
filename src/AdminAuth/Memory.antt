-- ===== src/AdminAuth/Memory.antt =====
-- A table of settings, hashes and a server in memory: the instance at which tests run.
use Prim.Native.String.{◌++◌}
use astron_claw.Prelude.{
  ℕ, String, Bool, true, false, not, ◌≡◌, refl, sym, ap, ◌∙◌, Option, none, some, List, [], ◌==◌,
  str_eq, eq_refl, if◌then◌else◌,
}
use astron_claw.Prelude.Dict.{Dict, lookup, insert, lookup-insert, lookup-remove}
use astron_claw.Redis.{Redis, Reply, ok, nil, failed}
use astron_claw.Redis.Laws.{elem}
use astron_claw.Redis.Memory.{Memory, memory, view}
use astron_claw.AdminAuth.{ConfigTable, Hashes, same, mismatch, admin_session_idx}
use astron_claw.AdminAuth.Laws.{ConfigLaws, HashLaws, SessionLaws, read_of}

abbrev pub is_some {ℓ} : {A : Type ℓ} → Option A → Bool
is_some none = false
is_some (some a) = true

abbrev pub config : ConfigTable
config = record {
  State = Dict String;
  first = λ k s. read_of (lookup k s);
  create = λ k v s. (true, insert k v s);
  save = λ k v s. (true, insert k v s);
  count = λ k s. some (if is_some (lookup k s) then 1 else 0);
  commit = λ s. true;
}

abbrev pub stored_in : Dict String → String → Option String
stored_in s k = lookup k s

pub config_laws : ConfigLaws config stored_in
config_laws = record {
  first-read = λ k s. refl;
  create-ok = λ k v j s e. lookup-insert k j v s;
  save-ok = λ k v j s e. lookup-insert k j v s;
}

abbrev pub hashes : Hashes
hashes = record {
  generate = λ p. some ("h:" ++ p);
  compare = λ h p. if str_eq h ("h:" ++ p) then same else mismatch;
  sha256_hex = λ t. "x" ++ t;
}

abbrev or_text : Option String → String
or_text none = ""
or_text (some t) = t

pub hash_laws : HashLaws hashes
hash_laws = record {
  compare-generate = λ p h e.
      ap (λ (o : Option String). if str_eq (or_text o) ("h:" ++ p) then same else mismatch) (sym e)
      ∙ rw (eq_refl) refl;
}

abbrev pub server : Redis
server = record memory { exists = λ k s. (ok (if is_some (lookup k s.texts) then 1 else 0), s) }

abbrev pub live_in : Memory → String → Bool
live_in s k = is_some (lookup k s.texts)

abbrev pub indexed_in : Memory → String → Bool
indexed_in s t = view.member s admin_session_idx t

abbrev reply_list : Reply (List String) → List String
reply_list (ok ts) = ts
reply_list nil = []
reply_list (failed e) = []

abbrev reply_count : Reply ℕ → ℕ
reply_count (ok n) = n
reply_count nil = 0
reply_count (failed e) = 0

counted : (b : Bool) → not ((if b then 1 else 0) == 0) ≡ b
counted true = refl
counted false = refl

if_some :
    (b : Bool) (o : Option String)
    → is_some (if b then none else o) ≡ (if b then false else is_some o)
if_some true o = refl
if_some false o = refl

pub session_laws : SessionLaws server live_in indexed_in
session_laws = record {
  exists-ok =
      λ k n c e. ap (λ r. not (reply_count r == 0)) (sym e) ∙ counted (is_some (lookup k c.texts));
  set_ex-ok = λ k v ttl c e. rw (lookup-insert, eq_refl) refl;
  sadd-live = λ t u c. refl;
  smembers-ok = λ ts t c e. ap (λ r. elem t (reply_list r)) (sym e);
  smembers-live = λ k c. refl;
  del-live =
      λ k j c. ap is_some (lookup-remove k j c.texts) ∙ if_some (str_eq k j) (lookup j c.texts);
}
