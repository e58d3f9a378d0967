-- ===== src/Ctmaster/Directories.antt =====
-- ctprocesslog/ctutils.c: which directories `is_dir_exits` makes.
use carrots.Base.{
  ℕ, suc, ◌≡◌, ◌≢◌, refl, ap, inl, inr, List, [], ◌∷◌, ◌++◌, append_assoc, append-nil, subst, some,
  Bool, true, false, ◌==◌, ==_iff, Bool-cases, All, arith,
}
use carrots.Ctmaster.{same_path, exists, dir_loop, is_dir_exits}

abbrev pub IsNoSlash : ℕ → Type 0
IsNoSlash c = (c == 47) ≡ false

some-injective : {x y : ℕ × List (List ℕ)} → some x ≡ some y → x ≡ y
some-injective e = cc

module _ (mkdir : List ℕ → Bool) where
  dir_loop_name :
      (name : List ℕ) (passed : List ℕ) (dirs : List (List ℕ))
      → All IsNoSlash name
      → dir_loop mkdir passed name dirs ≡ (0, dirs)
  unfolding dir_loop
  dir_loop_name [] passed dirs plain = refl
  dir_loop_name (c ∷ cs) passed dirs plain =
      rw (plain.0) (dir_loop_name cs (passed ++ c ∷ []) dirs plain.1)

  dir_loop_last :
      (path name : List ℕ) (passed : List ℕ) (dirs : List (List ℕ))
      → All IsNoSlash name
      → dir_loop mkdir passed (path ++ name) dirs ≡ dir_loop mkdir passed path dirs
  unfolding dir_loop
  dir_loop_last [] name passed dirs plain = dir_loop_name name passed dirs plain
  dir_loop_last (c ∷ cs) name passed dirs plain =
      let kept = dir_loop_last cs name (passed ++ c ∷ []) dirs plain in
      let made = dir_loop_last cs name (passed ++ c ∷ []) (passed ∷ dirs) plain in
      rw (kept, made) refl

  -- is_dir_exits does the same for a path with a last name behind it, which has no slash at its
  -- end, as for the path without that name: that directory is never looked up and never made.
  pub is_dir_exits-last :
      (c : ℕ) (path name : List ℕ) (dirs : List (List ℕ))
      → All IsNoSlash name
      → is_dir_exits mkdir (c ∷ (path ++ name)) dirs ≡ is_dir_exits mkdir (c ∷ path) dirs
  unfolding is_dir_exits
  is_dir_exits-last c path name dirs plain = ap some (dir_loop_last path name (c ∷ []) dirs plain)

  same_path_refl : (p : List ℕ) → same_path p p ≡ true
  unfolding same_path
  same_path_refl [] = refl
  same_path_refl (c ∷ cs) = rw ((==_iff c c).1 refl) (same_path_refl cs)

  exists_more :
      (p q : List ℕ) (dirs : List (List ℕ)) → exists p dirs ≡ true → exists p (q ∷ dirs) ≡ true
  unfolding exists
  exists_more p q dirs there = elim (Bool-cases (same_path p q)) [
    | inl on ↦ rw on refl
    | inr off ↦ rw off there
  ]

  -- No directory is removed.
  dir_loop_keeps :
      (path passed p : List ℕ) (dirs : List (List ℕ))
      → exists p dirs ≡ true
      → exists p (dir_loop mkdir passed path dirs).1 ≡ true
  unfolding dir_loop
  dir_loop_keeps [] passed p dirs there = there
  dir_loop_keeps (c ∷ cs) passed p dirs there =
      let kept = dir_loop_keeps cs (passed ++ c ∷ []) p dirs there in
      let made =
        dir_loop_keeps cs (passed ++ c ∷ []) p (passed ∷ dirs) (exists_more p passed dirs there) in
      elim (Bool-cases (c == 47)) [
        | inr off ↦ rw off kept
        | inl on ↦ elim (Bool-cases (exists passed dirs)) [
          | inl old ↦ rw (on, old) kept
          | inr new ↦ elim (Bool-cases (mkdir passed)) [
            | inl done ↦ rw (on, new, done) made
            | inr failed ↦ rw (on, new, failed) there
          ]
        ]
      ]

  one-ne : (k : ℕ) → suc k ≢ 0
  one-ne k e = omega (arith, e)

  exists_new : (p : List ℕ) (dirs : List (List ℕ)) → exists p (p ∷ dirs) ≡ true
  unfolding exists
  exists_new p dirs = rw (same_path_refl p) refl

  dir_loop_made :
      (a b passed : List ℕ) (dirs : List (List ℕ))
      → (dir_loop mkdir passed (a ++ 47 ∷ b) dirs).0 ≡ 0
      → exists (passed ++ a) (dir_loop mkdir passed (a ++ 47 ∷ b) dirs).1 ≡ true
  unfolding dir_loop
  dir_loop_made [] b passed dirs ok =
      rw (append-nil passed) (elim (Bool-cases (exists passed dirs)) [
        | inl old ↦ rw old (dir_loop_keeps b (passed ++ 47 ∷ []) passed dirs old)
        | inr new ↦ elim (Bool-cases (mkdir passed)) [
          | inl done ↦
              rw (new, done)
                (dir_loop_keeps b (passed ++ 47 ∷ []) passed (passed ∷ dirs)
                  (exists_new passed dirs))
          | inr failed ↦ absurd (one-ne 0 (rw (new, failed) at ok))
        ]
      ])
  dir_loop_made (c ∷ a) b passed dirs ok =
      let next = append_assoc passed (c ∷ []) a in
      elim (Bool-cases (c == 47)) [
        | inr off ↦ rw (off, ← next) (dir_loop_made a b (passed ++ c ∷ []) dirs (rw off at ok))
        | inl on ↦ elim (Bool-cases (exists passed dirs)) [
          | inl old ↦
              rw (on, old, ← next) (dir_loop_made a b (passed ++ c ∷ []) dirs (rw (on, old) at ok))
          | inr new ↦ elim (Bool-cases (mkdir passed)) [
            | inl done ↦
                rw (on, new, done, ← next)
                  (dir_loop_made a b (passed ++ c ∷ []) (passed ∷ dirs) (rw (on, new, done) at ok))
            | inr failed ↦ absurd (one-ne 0 (rw (on, new, failed) at ok))
          ]
        ]
      ]

  -- When is_dir_exits returns 0, every directory of the path that a slash follows exists.
  pub is_dir_exits-exists :
      (c : ℕ) (a b : List ℕ) (dirs made : List (List ℕ))
      → is_dir_exits mkdir (c ∷ (a ++ 47 ∷ b)) dirs ≡ some (0, made)
      → exists (c ∷ a) made ≡ true
  unfolding is_dir_exits
  is_dir_exits-exists c a b dirs made ran =
      let same : dir_loop mkdir (c ∷ []) (a ++ 47 ∷ b) dirs ≡ (0, made) = some-injective ran in
      let there = dir_loop_made a b (c ∷ []) dirs (ap (λ (r : ℕ × List (List ℕ)). r.0) same) in
      subst (λ (r : ℕ × List (List ℕ)). exists (c ∷ a) r.1 ≡ true) same there
