-- ===== src/Agent/Service/Upload/Placed.antt =====
-- How what was received is placed at its destination, or fails to be: `receive_upload` of
-- crates/pbox-agent/src/main.rs.
use pbox.Base.{
  ℕ, ◌≡◌, refl, ap, sym, subst, inl, inr, Bool, true, false, not, ◌&&◌, ◌||◌, ◌==◌, Option, none,
  some, [], ◌∷◌, Text, length, take, ok, err, Bool-cases, arith, ◌⊎◌,
}
use pbox.Agent.Service.{
  ServiceError, io_failed, FileChunk, FileSystem, mode_or, old_mode, Faults, Placing, stored, stops,
  completed, copied, placed,
}

-- The files are those that there were, or a write in place has left the first bytes of the data.
abbrev pub Partial : FileSystem → Text → Bool → Text → FileSystem → Type 0
Partial files destination atomic content after =
    (after ≡ files)
    ⊎ ((atomic ≡ false)
        × (n : ℕ) × (mode : ℕ) × (after ≡ stored files destination (take n content) mode))

-- A failure that leaves the files so, or the destination with all the data.
abbrev pub IsPlacing : FileSystem → Text → Bool → Text → Placing → Type 0
IsPlacing files destination atomic content r =
    ((error : ServiceError) × (r.0 ≡ err error) × Partial files destination atomic content (r.1))
    ⊎ ((r.0 ≡ ok tt) × (mode : ℕ) × (r.1 ≡ stored files destination content mode))

take-length : (t : Text) → take (length t) t ≡ t
take-length [] = refl
take-length (c ∷ t) = ap (λ r. c ∷ r) (take-length t)

-- All the data are its first bytes too.
whole :
    (files : FileSystem) (destination content : Text) (mode : ℕ)
    → stored files destination content mode
      ≡ stored files destination (take (length content) content) mode
whole files destination content mode =
    ap (λ t. stored files destination t mode) (sym (take-length content))

stops-IsPlacing :
    (o : Option ℕ) (files : FileSystem) (destination content : Text) (mode : ℕ) (rest : Placing)
    → IsPlacing files destination false content rest
    → IsPlacing files destination false content (stops o files destination content mode rest)
stops-IsPlacing none files destination content mode rest i = i
stops-IsPlacing (some n) files destination content mode rest i =
    inl (io_failed, refl, inr (refl, n, mode, refl))

module _ (default_mode : ℕ) (faults : Faults) (files : FileSystem) (destination : Text)
    (first : FileChunk) (content : Text) where
  completed-IsPlacing :
      (old : ℕ)
      → IsPlacing files destination false content
          (completed default_mode faults files destination first content old)
  completed-IsPlacing old =
      elim (Bool-cases (not (first.mode == 0) && faults.destination_mode_fails)) [
        | inl e ↦ rw e (
            inl (
              io_failed,
              refl,
              inr (refl, length content, old, whole files destination content old),
            ))
        | inr e ↦ elim (Bool-cases faults.remove_fails) [
          | inl f ↦
              let mode = mode_or first.mode old in
              rw (e, f)
                (inl (
                  io_failed,
                  refl,
                  inr (refl, length content, mode, whole files destination content mode),
                ))
          | inr f ↦ rw (e, f) (inr (refl, mode_or first.mode old, refl))
        ]
      ]

  copied-IsPlacing :
      IsPlacing files destination false content
        (copied default_mode faults files destination first content)
  unfolding copied
  copied-IsPlacing =
      let old = old_mode default_mode (files destination) in
      elim (Bool-cases faults.open_fails) [
        | inl e ↦ rw e (inl (io_failed, refl, inl refl))
        | inr e ↦ elim (Bool-cases faults.source_fails) [
          | inl f ↦ rw (e, f) (inl (io_failed, refl, inr (refl, 0, old, refl)))
          | inr f ↦
              rw (e, f)
                (stops-IsPlacing faults.copy_stops files destination content old _ (
                  stops-IsPlacing faults.flush_stops files destination content old _
                    (completed-IsPlacing old)))
        ]
      ]

  pub placed-IsPlacing :
      (atomic : Bool)
      → first.atomic_write ≡ atomic
      → IsPlacing files destination atomic content
          (placed default_mode faults files destination first content)
  unfolding placed
  placed-IsPlacing false f =
      elim (Bool-cases (faults.flush_fails || (not (first.mode == 0) && faults.mode_fails))) [
        | inl e ↦ rw e (inl (io_failed, refl, inl refl))
        | inr e ↦
            let same : placed default_mode faults files destination first content
                ≡ copied default_mode faults files destination first content =
              ground arith in
            subst (IsPlacing files destination false content) (sym same) copied-IsPlacing
      ]
  placed-IsPlacing true f =
      elim (Bool-cases (faults.flush_fails || (not (first.mode == 0) && faults.mode_fails))) [
        | inl e ↦ rw e (inl (io_failed, refl, inl refl))
        | inr e ↦ elim (Bool-cases faults.rename_fails) [
          | inl g ↦ rw (e, f, g) (inl (io_failed, refl, inl refl))
          | inr g ↦ rw (e, f, g) (inr (refl, mode_or first.mode 384, refl))
        ]
      ]
