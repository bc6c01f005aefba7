-- ===== src/Agent/Service/Upload/Cases.antt =====
-- What an upload does to the files, whichever operations of the file system fail: `receive_upload` of
-- crates/pbox-agent/src/main.rs.
use pbox.Base.{
  ℕ, ◌≡◌, ◌≤◌, refl, ap, sym, ◌∙◌, subst, inl, inr, Bool, true, false, if◌then◌else◌, Option, none,
  some, List, ◌++◌, Text, text_eq, text_eq_refl, length, take, Result, ok, err, Bool-cases,
  Option-cases, ◌⊎◌,
}
use pbox.Agent.Service.{
  ServiceError, temporary_exists, io_failed, FileChunk, StreamEvent, Received, max_file_size,
  upload_content, File, FileSystem, put, FileResult, Faults, Placing, placed, cleaned, settled,
  finished, receive_upload,
}
use pbox.Agent.Service.Upload.{IsCounted, data_of, upload_content-eq-ok}
use pbox.Agent.Service.Upload.Placed.{Partial, IsPlacing, placed-IsPlacing}

-- What an upload that succeeded did.
pub record IsUploaded (sha256 : Text → Text) (files after : FileSystem)
    (temporary destination : Text) (sent : Text) (result : FileResult) : Type 0 where
  pub size : result.size ≡ length sent
  pub bounded : result.size ≤ max_file_size
  pub digest : result.digest ≡ sha256 sent
  pub written : (mode : ℕ) × (after destination ≡ some (record { content = sent; mode = mode }))
  pub removed : after temporary ≡ none
  pub others :
      (path : Text)
      → (text_eq temporary path ≡ true)
        ⊎ ((text_eq destination path ≡ true) ⊎ (after path ≡ files path))

-- What an upload that failed did.
pub record IsFailed (faults : Faults) (files after : FileSystem) (temporary destination : Text)
    (atomic : Bool) (sent : Text) : Type 0 where
  pub undone : (faults.cleanup_fails ≡ true) ⊎ (after temporary ≡ files temporary)
  pub target :
      (after destination ≡ files destination)
      ⊎ ((atomic ≡ false)
          × (n : ℕ) × (mode : ℕ) × (after destination
              ≡ some (record { content = take n sent; mode = mode })))
  pub others :
      (path : Text)
      → (text_eq temporary path ≡ true)
        ⊎ ((text_eq destination path ≡ true) ⊎ (after path ≡ files path))

unchanged-IsFailed :
    (faults : Faults) (files : FileSystem) (temporary destination : Text) (atomic : Bool)
    (sent : Text)
    → IsFailed faults files files temporary destination atomic sent
unchanged-IsFailed faults files temporary destination atomic sent = record {
  undone = inr refl;
  target = inl refl;
  others = λ path. inr (inr refl);
}

-- Files that differ at a temporary file and a destination only.
apart-others :
    (file kept : Option File) (files : FileSystem) (temporary destination path : Text)
    → (text_eq temporary path ≡ true)
      ⊎ ((text_eq destination path ≡ true)
          ⊎ (put temporary file (put destination kept files) path ≡ files path))
apart-others file kept files temporary destination path =
    elim (Bool-cases (text_eq temporary path)) [
      | inl f ↦ inl f
      | inr f ↦ elim (Bool-cases (text_eq destination path)) [
        | inl g ↦ inr (inl g)
        | inr g ↦ inr (inr (rw (f, g) refl))
      ]
    ]

cleaned-undone :
    (default_mode : ℕ) (faults : Faults) (files after : FileSystem) (temporary : Text)
    → files temporary ≡ none
    → (faults.cleanup_fails ≡ true)
      ⊎ (cleaned default_mode faults after temporary temporary ≡ files temporary)
unfolding cleaned
cleaned-undone default_mode faults files after temporary n =
    elim (Bool-cases faults.cleanup_fails) [
      | inl e ↦ inl e
      | inr e ↦ inr (rw (text_eq_refl temporary, e) (sym n))
    ]

cleaned-IsFailed :
    (default_mode : ℕ) (faults : Faults) (files after : FileSystem) (temporary destination : Text)
    (atomic : Bool) (sent : Text)
    → files temporary ≡ none
    → text_eq temporary destination ≡ false
    → Partial files destination atomic sent after
    → IsFailed faults files
        (cleaned default_mode faults after temporary)
        temporary
        destination
        atomic
        sent
unfolding cleaned
cleaned-IsFailed default_mode faults files after temporary destination atomic sent n d (inl e) =
    record {
      undone = cleaned-undone default_mode faults files after temporary n;
      target = inl (rw d (ap (λ f. f destination) e));
      others = λ path. elim (Bool-cases (text_eq temporary path)) [
        | inl f ↦ inl f
        | inr f ↦ inr (inr (rw f (ap (λ g. g path) e)))
      ];
    }
cleaned-IsFailed default_mode faults files after temporary destination atomic sent n d
      (inr (a, k, mode, e)) =
    record {
      undone = cleaned-undone default_mode faults files after temporary n;
      target =
          inr (a, k, mode, rw d (ap (λ f. f destination) e ∙ rw (text_eq_refl destination) refl));
      others = λ path. elim (Bool-cases (text_eq temporary path)) [
        | inl f ↦ inl f
        | inr f ↦ elim (Bool-cases (text_eq destination path)) [
          | inl g ↦ inr (inl g)
          | inr g ↦ inr (inr (rw f (ap (λ h. h path) e ∙ rw g refl)))
        ]
      ];
    }

-- What an upload does in either case.
abbrev pub Uploaded :
    (Text → Text)
    → Faults
    → FileSystem
    → Text
    → Text
    → Bool
    → Text
    → Result ServiceError FileResult × FileSystem
    → Type 0
Uploaded sha256 faults files temporary destination atomic sent r =
    ((error : ServiceError) × (r.0 ≡ err error)
      × IsFailed faults files (r.1) temporary destination atomic sent)
    ⊎ ((result : FileResult) × (r.0 ≡ ok result)
        × IsUploaded sha256 files (r.1) temporary destination sent result)

settled-Uploaded :
    (default_mode : ℕ) (faults : Faults) (sha256 : Text → Text) (files : FileSystem)
    (temporary destination : Text) (atomic : Bool) (received : Received) (sent : Text) (r : Placing)
    → files temporary ≡ none
    → text_eq temporary destination ≡ false
    → IsCounted received
    → received.content ≡ sent
    → IsPlacing files destination atomic sent r
    → Uploaded sha256 faults files temporary destination atomic sent
        (settled default_mode faults sha256 temporary received r)
settled-Uploaded default_mode faults sha256 files temporary destination atomic received sent
      (result, after) n d i e (inl (error, f, p)) =
    rw f (
      inl (
        error,
        refl,
        cleaned-IsFailed default_mode faults files after temporary destination atomic sent n d p,
      ))
settled-Uploaded default_mode faults sha256 files temporary destination atomic received sent
      (result, after) n d i e (inr (f, mode, p)) =
    rw f (
      inr (
        record { size = received.size; digest = sha256 received.content },
        refl,
        record {
          size = i.counted ∙ ap (length {A = ℕ}) e;
          bounded = i.bounded;
          digest = ap sha256 e;
          written = (mode, rw d (ap (λ g. g destination) p ∙ rw (text_eq_refl destination) refl));
          removed = rw (text_eq_refl temporary) refl;
          others = λ path.
              subst
                (λ g.
                  (text_eq temporary path ≡ true)
                  ⊎ ((text_eq destination path ≡ true) ⊎ (put temporary none g path ≡ files path)))
                (sym p) (apart-others none _ files temporary destination path);
        },
      ))

finished-Uploaded :
    (default_mode : ℕ) (faults : Faults) (sha256 : Text → Text) (files : FileSystem)
    (temporary destination : Text) (first : FileChunk) (events : List StreamEvent)
    (content : Result ServiceError Received)
    → upload_content faults.write_fails first events ≡ content
    → files temporary ≡ none
    → text_eq temporary destination ≡ false
    → Uploaded sha256 faults files temporary destination first.atomic_write
        (first.data_bytes ++ data_of events)
        (finished default_mode faults sha256 files temporary destination first content)
finished-Uploaded default_mode faults sha256 files temporary destination first events (err error) h
      n d =
    inl (
      error,
      refl,
      cleaned-IsFailed default_mode faults files files temporary destination first.atomic_write
          (first.data_bytes ++ data_of events) n d (inl refl),
    )
finished-Uploaded default_mode faults sha256 files temporary destination first events (ok received)
      h n d =
    let (i, e) = upload_content-eq-ok faults.write_fails first events received h in
    let r = placed default_mode faults files destination first received.content in
    settled-Uploaded default_mode faults sha256 files temporary destination first.atomic_write
      received (first.data_bytes ++ data_of events) r n d i e
      (subst (λ t. IsPlacing files destination first.atomic_write t r) e
        (placed-IsPlacing default_mode faults files destination first received.content
          first.atomic_write refl))

-- Whichever operations of the file system fail, an upload to a destination that is not the temporary file
-- either succeeds, and then the destination has the data of the first chunk and of all the others on the
-- stream, in order, at most 64 MiB, the answer has their size and digest, the temporary file is gone, and
-- no other file has changed. Or it fails, and then no file but these two has changed; the temporary file
-- is as it was before, unless its removal failed; and the destination is as it was before, or the write
-- was not atomic and the destination holds the first bytes of the data.
pub receive_upload-cases :
    (default_mode : ℕ) (faults : Faults) (sha256 : Text → Text) (files : FileSystem)
    (temporary destination : Text) (first : FileChunk) (events : List StreamEvent)
    → text_eq temporary destination ≡ false
    → Uploaded sha256 faults files temporary destination first.atomic_write
        (first.data_bytes ++ data_of events)
        (receive_upload default_mode faults sha256 files temporary destination first events)
unfolding receive_upload
receive_upload-cases default_mode faults sha256 files temporary destination first events d =
    let same =
      unchanged-IsFailed faults files temporary destination first.atomic_write
        (first.data_bytes ++ data_of events) in
    let is =
      Uploaded sha256 faults files temporary destination first.atomic_write
        (first.data_bytes ++ data_of events) in
    let content = upload_content faults.write_fails first events in
    let begin : files temporary ≡ none
        → receive_upload default_mode faults sha256 files temporary destination first events ≡ (
            if faults.create_fails
            then (err io_failed, files)
            else finished default_mode faults sha256 files temporary destination first content) =
      λ e. rw e refl in
    elim (Option-cases (files temporary)) [
      | inr (file, e) ↦ rw e (inl (temporary_exists, refl, same))
      | inl e ↦ elim (Bool-cases faults.create_fails) [
        | inl f ↦ subst is (sym (begin e ∙ rw f refl)) (inl (io_failed, refl, same))
        | inr f ↦ subst is (sym (begin e ∙ rw f refl)) (
            finished-Uploaded default_mode faults sha256 files temporary destination first events
              content refl e d)
      ]
    ]
