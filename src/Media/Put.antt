-- ===== src/Media/Put.antt =====
-- What reaches the object storage: the whole body, under the key and the type of the result.
use Prim.Native.String.{◌++◌ as ◌+++◌}
use astron_claw.Prelude.{
  ℕ, String, ◌≡◌, refl, sym, ap, subst, ◌∙◌, Bool, true, false, ◌||◌, Option, none, some, List,
  ◌++◌, inl, inr, arith, str_eq, starts_with, Bool-cases,
}
use astron_claw.Prelude.Int.{ℤ}
use astron_claw.Queue.Traffic.{some_cancel}
use astron_claw.Media.{
  Reader, ObjectStorage, StorageBody, reader, bytes, MediaResult, stored, safe_name,
  rewind_for_storage, sought, buffered, answer, put_body,
}

-- What the code relies on in a reader: `content` is the whole body, `unread` what is still to come.
pub record ReaderLaws (B : Reader) (content unread : B.State → List ℕ) : Type 0 where
  pub read_first-ok :
      (bs : List ℕ) (s : B.State)
      → (B.read_first s).0 ≡ some bs
      → unread s ≡ bs ++ unread (B.read_first s).1
  pub read_first-content : (s : B.State) → content (B.read_first s).1 ≡ content s
  pub seek_start-ok : (s s' : B.State) → B.seek_start s ≡ some (true, s') → unread s' ≡ content s
  pub read_all-ok : (bs : List ℕ) (s : B.State) → (B.read_all s).0 ≡ some bs → bs ≡ unread s

pub safe_name-plain :
    (base : String) → (str_eq (safe_name base) "" || starts_with (safe_name base) ".") ≡ false
unfolding safe_name
safe_name-plain base =
    elim (Bool-cases (str_eq base "" || (str_eq base "." || starts_with base "."))) [
      | inl e ↦ rw e refl
      | inr e ↦ rw e (ground arith)
    ]

pub pair_path {ℓ κ} :
    {A : Type ℓ} {B : Type κ} {a b : A} {c d : B} → a ≡ b → c ≡ d → ◌≡◌ {A = A × B} (a, c) (b, d)
pair_path p q = λ i. (p i, q i)

stored_cancel : {r q : MediaResult} → stored r ≡ stored q → r ≡ q
stored_cancel h = cc h

module _ (B : Reader) (T : ObjectStorage B.State) (detect : List ℕ → String)
    (base : String → String) (content unread : B.State → List ℕ)
    (L : ReaderLaws B content unread) where
  abbrev pub delivers : StorageBody B.State → List ℕ
  delivers (reader s) = unread s
  delivers (bytes bs) = bs

  -- the bytes that were read and those that follow are the whole body
  pub rewind-delivers :
      (sniffed : List ℕ) (s : B.State) (body : StorageBody B.State)
      → content s ≡ sniffed ++ unread s
      → rewind_for_storage B T detect base sniffed s ≡ some body
      → delivers body ≡ content s
  unfolding rewind_for_storage
  rewind-delivers sniffed s body whole h = split (B.seek_start s) refl h
    where
      split :
          (o : Option (Bool × B.State))
          → B.seek_start s ≡ o
          → (elim o as (λ x. Option (StorageBody B.State)) [
            | some moved ↦ sought B T detect base moved
            | none ↦ buffered B T detect base sniffed (B.read_all s).0
          ])
            ≡ some body
          → delivers body ≡ content s
      split (some (true, s')) e k = ap delivers (sym (some_cancel k)) ∙ L.seek_start-ok s s' e
      split (some (false, s')) e k = absurd (cc k)
      split none e k = read (B.read_all s).0 refl k
        where
          read :
              (o : Option (List ℕ))
              → (B.read_all s).0 ≡ o
              → buffered B T detect base sniffed o ≡ some body
              → delivers body ≡ content s
          read none d j = absurd (cc j)
          read (some rest) d j =
              ap delivers (sym (some_cancel j))
              ∙ ap (λ x. sniffed ++ x) (L.read_all-ok rest s d)
              ∙ sym whole

  -- the parts of a result that the storage has accepted
  pub record Put (name : String) (size : ℤ) (mime sid : String) (o : Option (StorageBody B.State))
      (r : MediaResult) (t t' : T.Store) : Type 0 where
    pub body : StorageBody B.State
    pub given : o ≡ some body
    pub put :
        T.put (r.session_id +++ ("/" +++ r.file_name)) body r.mime_type r.file_size t
        ≡ (some r.download_url, t')
    pub same : r ≡ record {
      file_name = name;
      mime_type = mime;
      file_size = size;
      session_id = sid;
      download_url = r.download_url;
    }

  pub put_body-Put :
      (name : String) (size : ℤ) (mime sid : String) (o : Option (StorageBody B.State))
      (r : MediaResult) (t t' : T.Store)
      → put_body B T detect base name size mime sid o t ≡ (stored r, t')
      → Put name size mime sid o r t t'
  unfolding put_body
  put_body-Put name size mime sid none r t t' h = absurd (cc h)
  put_body-Put name size mime sid (some body) r t t' h =
      split (T.put (sid +++ ("/" +++ name)) body mime size t) refl
        (ap (λ x. x.0) h, ap (λ x. x.1) h)
    where
      result : String → MediaResult
      result url = record {
        file_name = name;
        mime_type = mime;
        file_size = size;
        session_id = sid;
        download_url = url;
      }

      split :
          (o : Option String × T.Store)
          → T.put (sid +++ ("/" +++ name)) body mime size t ≡ o
          → (answer B T detect base (result "") o.0 ≡ stored r) × (o.1 ≡ t')
          → Put name size mime sid (some body) r t t'
      split (none, s) e k = absurd (cc (k.0))
      split (some url, s) e k =
          let made = stored_cancel k.0 in
          record {
            body = body;
            given = refl;
            put =
                subst
                  (λ (x : MediaResult).
                    T.put (x.session_id +++ ("/" +++ x.file_name)) body x.mime_type x.file_size t
                    ≡ (some x.download_url, t'))
                  made (e ∙ pair_path refl k.1);
            same = sym made ∙ ap (λ (x : MediaResult). result x.download_url) made;
          }
