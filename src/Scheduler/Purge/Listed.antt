-- ===== src/Scheduler/Purge/Listed.antt =====
-- Which files purgeEnvironmentsToMaxSize of src/scheduler/fisk-scheduler.ts takes for environments.
use fisk.Base.{
  ℕ, subst, ◌≡◌, refl, sym, ap, ◌∙◌, Bool, true, false, not, ◌||◌, none, some, List, [], ◌∷◌, ◌++◌,
  arith, ◌==◌, Bool-cases, Option-cases, inl, inr, length, take, drop, append-take-drop,
  length-take, length-drop, length-append, drop-append_length, append-nil,
}
use fisk.Scheduler.Purge.{Text, EnvInfo, EnvFile, begins_with, tar_gz, hash_of, env_infos}

-- The name of an environment with this hash.
abbrev pub Names : Text → Text → Type 0
Names h name = (length h ≡ 40) × (name ≡ h ++ tar_gz)

-- The environments are those of the files, in their order.
pub data Lists : List EnvFile → List EnvInfo → Type 0 where
  all_listed : Lists [] []
  other_file :
      (f : EnvFile) (fs : List EnvFile) (es : List EnvInfo)
      → ((h : Text) → ¬ Names h f.name)
      → Lists fs es
      → Lists (f ∷ fs) es
  no_stat :
      (f : EnvFile) (fs : List EnvFile) (es : List EnvInfo)
      → f.stat ≡ none
      → Lists fs es
      → Lists (f ∷ fs) es
  listed :
      (f : EnvFile) (fs : List EnvFile) (e : EnvInfo) (es : List EnvInfo)
      → Names e.hash f.name
      → f.stat ≡ some (e.size, e.created)
      → Lists fs es
      → Lists (f ∷ fs) (e ∷ es)

begins_with-append : (xs ys : Text) → begins_with xs (xs ++ ys) ≡ true
begins_with-append [] ys = refl
begins_with-append (x ∷ xs) ys = ground (arith, begins_with-append xs ys)

begins_with-eq : (xs ys : Text) → length xs ≡ length ys → begins_with xs ys ≡ true → ys ≡ xs
begins_with-eq [] [] l h = refl
begins_with-eq [] (y ∷ ys) l h = absurd (omega (arith, l))
begins_with-eq (x ∷ xs) [] l h = absurd (omega (arith, l))
begins_with-eq (x ∷ xs) (y ∷ ys) l h =
    let same : y ≡ x = ground (arith, h) in
    let rest = begins_with-eq xs ys (omega (arith, l)) (ground (arith, h)) in
    ap (λ z. z ∷ ys) same ∙ ap (λ zs. x ∷ zs) rest

-- The test of the name, as a Boolean.
abbrev fails : Text → Bool
fails name = not (length name == 47) || not (begins_with tar_gz (drop 40 name))

fails-none : (name : Text) → fails name ≡ true → hash_of name ≡ none
unfolding hash_of
fails-none name e = rw (e, hash_of) refl

passes-some : (name : Text) → fails name ≡ false → hash_of name ≡ some (take 40 name)
unfolding hash_of
passes-some name e = rw (e, hash_of) refl

passes-Names : (name : Text) → fails name ≡ false → Names (take 40 name) name
passes-Names name e =
    let long : length name ≡ 47 = ground (arith, e) in
    let ending =
      begins_with-eq tar_gz (drop 40 name) (omega (arith, long, length-drop 40 name))
        (ground (arith, e)) in
    (
      omega (arith, long, length-take 40 name),
      sym (append-take-drop 40 name) ∙ ap (λ xs. take 40 name ++ xs) ending,
    )

Names-passes : (h name : Text) → Names h name → fails name ≡ false
Names-passes h name (l, e) =
    let long : length name ≡ 47 = omega (arith, l, ap length e, length-append h tar_gz) in
    let ending : drop 40 name ≡ tar_gz =
      ap (λ n. drop n name) (sym l) ∙ ap (drop (length h)) e ∙ drop-append_length h tar_gz in
    let begins : begins_with tar_gz (drop 40 name) ≡ true =
      ap (begins_with tar_gz) (ending ∙ sym (append-nil tar_gz)) ∙ begins_with-append tar_gz [] in
    ground (arith, long, begins)

env_infos-other :
    (f : EnvFile) (fs : List EnvFile) → hash_of f.name ≡ none → env_infos (f ∷ fs) ≡ env_infos fs
unfolding env_infos
env_infos-other f fs e = rw (e, env_infos) refl

env_infos-no_stat :
    (f : EnvFile) (fs : List EnvFile) (h : Text)
    → hash_of f.name ≡ some h
    → f.stat ≡ none
    → env_infos (f ∷ fs) ≡ env_infos fs
unfolding env_infos
env_infos-no_stat f fs h e gone = rw (e, gone, env_infos) refl

env_infos-listed :
    (f : EnvFile) (fs : List EnvFile) (h : Text) (s : ℕ × ℕ)
    → hash_of f.name ≡ some h
    → f.stat ≡ some s
    → env_infos (f ∷ fs) ≡ record { hash = h; size = s.0; created = s.1 } ∷ env_infos fs
unfolding env_infos
env_infos-listed f fs h s e found = rw (e, found, env_infos) refl

pub env_infos-Lists : (files : List EnvFile) → Lists files (env_infos files)
unfolding env_infos
env_infos-Lists [] = all_listed
env_infos-Lists (f ∷ fs) = elim (Bool-cases (fails f.name)) [
  | inl bad ↦ subst (Lists (f ∷ fs)) (sym (env_infos-other f fs (fails-none f.name bad))) (
      other_file f fs (env_infos fs) (λ h n. let g = sym bad ∙ Names-passes h f.name n in cc)
        (env_infos-Lists fs))
  | inr good ↦ elim (Option-cases f.stat) [
    | inl gone ↦
        subst (Lists (f ∷ fs))
          (sym (env_infos-no_stat f fs (take 40 f.name) (passes-some f.name good) gone))
          (no_stat f fs (env_infos fs) gone (env_infos-Lists fs))
    | inr (s, found) ↦
        subst (Lists (f ∷ fs))
          (sym (env_infos-listed f fs (take 40 f.name) s (passes-some f.name good) found))
          (listed f fs (record { hash = take 40 f.name; size = s.0; created = s.1 }) (env_infos fs)
            (passes-Names f.name good) found (env_infos-Lists fs))
  ]
]
