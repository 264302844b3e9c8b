-- ===== src/Queue/Memory.antt =====
-- A server of streams in memory that never fails: the instance at which tests run.
use Prim.Native.String.{◌++◌}
use astron_claw.Prelude.{
  ℕ, suc, String, ◌≡◌, refl, ap, ◌∙◌, true, Option, none, some, List, [], ◌∷◌, if◌then◌else◌,
  str_eq, eq_refl,
}
use astron_claw.Redis.{Reply, ok, nil, failed}
use astron_claw.Queue.{StreamEntry, Streams, first_message}
use astron_claw.Queue.Laws.{StreamLaws, added, cleared, is_there}

pub record StreamStore : Type 0 where
  pub size : String → ℕ
  pub waiting : String → String → Option (List StreamEntry)

abbrev pub no_streams : StreamStore
no_streams = record { size = λ k. 0; waiting = λ k g. none }

abbrev put_size : String → ℕ → (String → ℕ) → String → ℕ
put_size k n f j = if str_eq k j then n else f j

abbrev add : String → String → StreamStore → Reply String × StreamStore
add k m s = (
  ok ("id-" ++ m),
  record {
    size = put_size k (suc (s.size k)) s.size;
    waiting =
        λ j g. if str_eq k j then added ("id-" ++ m, some m) (s.waiting j g) else s.waiting j g;
  },
)

abbrev put : String → String → Option (List StreamEntry) → StreamStore → StreamStore
put k g w s = record s {
  waiting = λ j h. if str_eq k j then (if str_eq g h then w else s.waiting j h) else s.waiting j h;
}

abbrev read :
    String
    → String
    → Option (List StreamEntry)
    → StreamStore
    → Reply (List (List StreamEntry)) × StreamStore
read k g none s = (failed "NOGROUP No such key", s)
read k g (some []) s = (nil, s)
read k g (some (e ∷ es)) s = (ok ((e ∷ []) ∷ []), put k g (some es) s)

abbrev create : String → String → Option (List StreamEntry) → StreamStore → Reply Unit × StreamStore
create k g none s = (ok tt, put k g (some []) s)
create k g (some es) s = (failed "BUSYGROUP Consumer Group name already exists", s)

abbrev clear : String → StreamStore → StreamStore
clear k s = record {
  size = put_size k 0 s.size;
  waiting = λ j g. if str_eq k j then cleared (s.waiting j g) else s.waiting j g;
}

abbrev remove_stream : String → StreamStore → StreamStore
remove_stream k s = record {
  size = put_size k 0 s.size;
  waiting = λ j g. if str_eq k j then none else s.waiting j g;
}

abbrev pub streams : Streams
streams = record {
  Server = StreamStore;
  xadd = λ k max m s. add k m s;
  xread_group = λ k g c b s. read k g (s.waiting k g) s;
  xack = λ k g id s. (ok 0, s);
  xdel = λ k id s. (ok 0, s);
  del = λ k s. (ok 1, remove_stream k s);
  xtrim = λ k n s. (ok 0, clear k s);
  xgroup_create = λ k g s. create k g (s.waiting k g) s;
}

put_self :
    (k g : String) (w : Option (List StreamEntry)) (s : StreamStore) → (put k g w s).waiting k g ≡ w
put_self k g w s = rw (eq_refl k, eq_refl g) refl

abbrev added_to : Option StreamEntry → List StreamEntry → Option (List StreamEntry)
added_to none es = none
added_to (some e) es = some (e ∷ es)

reply_cancel : {A : Type 0} {a b : A} → ◌≡◌ {A = Reply A} (ok a) (ok b) → a ≡ b
reply_cancel h = cc h

read-found :
    (k g : String) (w : Option (List StreamEntry)) (s : StreamStore) (l : List (List StreamEntry))
    (e : StreamEntry)
    → (read k g w s).0 ≡ ok l
    → first_message l ≡ some e
    → (es : List StreamEntry) × (w ≡ some (e ∷ es)) × ((read k g w s).1.waiting k g ≡ some es)
read-found k g none s l e h m = absurd (cc h)
read-found k g (some []) s l e h m = absurd (cc h)
read-found k g (some (x ∷ es)) s l e h m =
    (es, ap (λ o. added_to o es) (ap first_message (reply_cancel h) ∙ m), put_self k g (some es) s)

read-none :
    (k g : String) (w : Option (List StreamEntry)) (s : StreamStore) (l : List (List StreamEntry))
    → (read k g w s).0 ≡ ok l
    → first_message l ≡ none
    → (w ≡ some []) × ((read k g w s).1.waiting k g ≡ some [])
read-none k g none s l h m = absurd (cc h)
read-none k g (some []) s l h m = absurd (cc h)
read-none k g (some (x ∷ es)) s l h m = absurd (cc (ap first_message (reply_cancel h), m))

read-nil :
    (k g : String) (s : StreamStore)
    → (read k g (s.waiting k g) s).0 ≡ nil
    → (s.waiting k g ≡ some []) × ((read k g (s.waiting k g) s).1.waiting k g ≡ some [])
read-nil k g s = split (s.waiting k g) refl
  where
    split :
        (w : Option (List StreamEntry))
        → s.waiting k g ≡ w
        → (read k g w s).0 ≡ nil
        → (w ≡ some []) × ((read k g w s).1.waiting k g ≡ some [])
    split none e h = absurd (cc h)
    split (some []) e h = (refl, e)
    split (some (x ∷ es)) e h = absurd (cc h)

read-no_group :
    (k g x : String) (s : StreamStore)
    → (read k g (s.waiting k g) s).0 ≡ failed x
    → (s.waiting k g ≡ none) × ((read k g (s.waiting k g) s).1.waiting k g ≡ none)
read-no_group k g x s = split (s.waiting k g) refl
  where
    split :
        (w : Option (List StreamEntry))
        → s.waiting k g ≡ w
        → (read k g w s).0 ≡ failed x
        → (w ≡ none) × ((read k g w s).1.waiting k g ≡ none)
    split none e h = (refl, e)
    split (some []) e h = absurd (cc h)
    split (some (y ∷ es)) e h = absurd (cc h)

read-size :
    (k g : String) (w : Option (List StreamEntry)) (s : StreamStore)
    → (read k g w s).1.size k ≡ s.size k
read-size k g none s = refl
read-size k g (some []) s = refl
read-size k g (some (x ∷ es)) s = refl

create-ok :
    (k g : String) (w : Option (List StreamEntry)) (s : StreamStore)
    → (create k g w s).0 ≡ ok tt
    → (create k g w s).1.waiting k g ≡ some []
create-ok k g none s h = put_self k g (some []) s
create-ok k g (some es) s h = absurd (cc h)

create-busy :
    (k g e : String) (w : Option (List StreamEntry)) (s : StreamStore)
    → (create k g w s).0 ≡ failed e
    → (is_there w ≡ true) × ((create k g w s).1.waiting k g ≡ s.waiting k g)
create-busy k g e none s h = absurd (cc h)
create-busy k g e (some es) s h = (refl, refl)

create-size :
    (k g : String) (w : Option (List StreamEntry)) (s : StreamStore)
    → (create k g w s).1.size k ≡ s.size k
create-size k g none s = refl
create-size k g (some es) s = refl

abbrev pub waiting_in : StreamStore → String → String → Option (List StreamEntry)
waiting_in s = s.waiting

abbrev pub size_in : StreamStore → String → ℕ
size_in s = s.size

pub streams-StreamLaws : StreamLaws streams waiting_in size_in
streams-StreamLaws = record {
  xadd-ok = λ k g m id max s h lt. rw (eq_refl k) (rw (reply_cancel h) refl);
  xadd-size = λ k m id max s h lt. rw (eq_refl k) refl;
  xread_group-found = λ k g c b l e s. read-found k g (s.waiting k g) s l e;
  xread_group-none = λ k g c b l s. read-none k g (s.waiting k g) s l;
  xread_group-nil = λ k g c b s. read-nil k g s;
  xread_group-no_group = λ k g c b e s h x. read-no_group k g e s h;
  xread_group-size = λ k g c b s. read-size k g (s.waiting k g) s;
  xack-same = λ k g id s. refl;
  xack-size = λ k g id s. refl;
  xtrim-ok = λ k g n s h. rw (eq_refl k) refl;
  xtrim-size = λ k n s h. rw (eq_refl k) refl;
  xgroup_create-ok = λ k g s. create-ok k g (s.waiting k g) s;
  xgroup_create-busy = λ k g e s h x. create-busy k g e (s.waiting k g) s h;
  xgroup_create-size = λ k g s. create-size k g (s.waiting k g) s;
}
