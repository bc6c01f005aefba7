-- ===== src/Cli/Snapshots/Saved.antt =====
-- Saved environments in the notes of a container: crates/pbox-cli/src/snapshots.rs.
use pbox.Base.{
  ◌≡◌, ◌≢◌, refl, false, ◌==◌, Option, none, some, [], ◌∷◌, ◌++◌, Text, strip_prefix,
  strip_prefix-append, split-append, split_whole, Without, ok, All, All-append, arith,
}
use pbox.Cli.Snapshots.{
  SavedEnvironment, snapshot_marker, introduction, lines, marked, saved_description, parse_saved,
}

line_feeds-none : (t : Text) → All (λ c. (c == 10) ≡ false) t → Without 10 t
line_feeds-none [] a = tt
line_feeds-none (c ∷ t) (h, a) = ((λ e. absurd (ground arith)), line_feeds-none t a)

introduction_line : All (λ c. (c == 10) ≡ false) introduction
introduction_line = (
  refl,
  (
    refl,
    (
      refl,
      (
        refl,
        (
          refl,
          (
            refl,
            (
              refl,
              (
                refl,
                (
                  refl,
                  (
                    refl,
                    (
                      refl,
                      (
                        refl,
                        (
                          refl,
                          (
                            refl,
                            (
                              refl,
                              (
                                refl,
                                (
                                  refl,
                                  (
                                    refl,
                                    (
                                      refl,
                                      (
                                        refl,
                                        (
                                          refl,
                                          (
                                            refl,
                                            (
                                              refl,
                                              (
                                                refl,
                                                (
                                                  refl,
                                                  (
                                                    refl,
                                                    (
                                                      refl,
                                                      (
                                                        refl,
                                                        (
                                                          refl,
                                                          (
                                                            refl,
                                                            (
                                                            refl,
                                                            (refl, (refl, (refl, (refl, tt)))),
                                                            ),
                                                          ),
                                                        ),
                                                      ),
                                                    ),
                                                  ),
                                                ),
                                              ),
                                            ),
                                          ),
                                        ),
                                      ),
                                    ),
                                  ),
                                ),
                              ),
                            ),
                          ),
                        ),
                      ),
                    ),
                  ),
                ),
              ),
            ),
          ),
        ),
      ),
    ),
  ),
)

introduction_unmarked : strip_prefix snapshot_marker introduction ≡ none
unfolding strip_prefix
introduction_unmarked = refl

marker_line : All (λ c. (c == 10) ≡ false) snapshot_marker
marker_line = (
  refl,
  (
    refl,
    (
      refl,
      (
        refl,
        (
          refl,
          (
            refl,
            (
              refl,
              (refl, (refl, (refl, (refl, (refl, (refl, (refl, (refl, (refl, (refl, tt)))))))))),
            ),
          ),
        ),
      ),
    ),
  ),
)

-- The lines of a description: the introduction, and the marker with the metadata.
lines-saved_description :
    (to_string : SavedEnvironment → Text) (saved : SavedEnvironment)
    → Without 10 (to_string saved)
    → lines (saved_description to_string saved)
      ≡ introduction ∷ (snapshot_marker ++ to_string saved) ∷ []
unfolding lines saved_description
lines-saved_description to_string saved w =
    let payload = snapshot_marker ++ to_string saved in
    let alone = split_whole 10 payload (
      All-append (λ c. c ≢ 10) snapshot_marker (to_string saved)
        (line_feeds-none snapshot_marker marker_line) w) in
    rw
      (split-append 10 introduction payload (line_feeds-none introduction introduction_line), alone)
      refl

marked-two :
    (payload : Text) → marked (introduction ∷ (snapshot_marker ++ payload) ∷ []) ≡ payload ∷ []
unfolding marked
marked-two payload = rw (introduction_unmarked, strip_prefix-append snapshot_marker payload) refl

-- Where the JSON of a saved environment has no line feed and is read back, so is the description that is
-- written into the notes of its container.
pub parse_saved-saved_description :
    (to_string : SavedEnvironment → Text) (from_str : Text → Option SavedEnvironment)
    (saved : SavedEnvironment)
    → Without 10 (to_string saved)
    → from_str (to_string saved) ≡ some saved
    → parse_saved from_str (saved_description to_string saved) ≡ ok (some saved)
unfolding parse_saved
parse_saved-saved_description to_string from_str saved w h =
    rw (lines-saved_description to_string saved w, marked-two (to_string saved), h) refl
