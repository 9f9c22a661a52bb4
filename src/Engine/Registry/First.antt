-- ===== src/Engine/Registry/First.antt =====
-- That the first registration of a name stands, for src/engine/strategy.cpp.
use predictive_trading_lab.Prelude.{
  ◌≡◌, refl, sym, ap, ◌∙◌, inl, inr, Bool, true, false, if◌then◌else◌, Option, none, some, List, [],
  ◌∷◌, text_eq, text_eq_iff, Text, Result, ok, err, Bool-cases, Option-cases, arith,
}
use mathlib.Core.Path.{subst}
use predictive_trading_lab.Engine.Registry.{
  RegistryError, unknown_strategy, text_lt, Factories, find_factory, emplace, register_strategy,
  create,
}

other_name : (name r e : Text) → text_eq name e ≡ false → r ≡ e → text_eq r name ≡ false
other_name name r e apart it = elim (Bool-cases (text_eq r name)) [
  | inl same ↦
      let named : r ≡ name = (text_eq_iff r name).0 same in
      let found : text_eq name e ≡ true = (text_eq_iff name e).1 (sym named ∙ it) in
      cc (found, apart)
  | inr different ↦ different
]

module _ {A : Type 0} where
  -- The calls of `register_strategy`, each with a name and a factory.
  unfoldable pub run : List (Text × Option (Text → A)) → Factories A → Factories A
  run [] factories = factories
  run (c ∷ calls) factories = run calls (register_strategy factories c.0 c.1).0

  -- The factory of the first call that gives one for the name.
  unfoldable pub first_given : Text → List (Text × Option (Text → A)) → Option (Text → A)
  first_given name [] = none
  first_given name ((given, none) ∷ calls) = first_given name calls
  first_given name ((given, some factory) ∷ calls) =
      if text_eq name given then some factory else first_given name calls

  skips :
      (name r : Text) (e : Text × (Text → A)) (m : Factories A)
      → find_factory name (e ∷ m) ≡ none
      → (text_eq name e.0 ≡ false) × (find_factory name m ≡ none)
  unfolding find_factory
  skips name r e m h = ground arith

  find-emplace :
      (name r : Text) (f : Text → A) (m : Factories A)
      → find_factory name m ≡ none
      → find_factory r (emplace name f m) ≡ (if text_eq r name then some f else find_factory r m)
  unfolding find_factory emplace
  find-emplace name r f [] h = refl
  find-emplace name r f (e ∷ m) h =
      let (other, absent) = skips name r e m h in
      let later = find-emplace name r f m absent in
      elim (Bool-cases (text_lt name e.0)) [
        | inl before ↦ rw (before, find_factory) refl
        | inr after ↦
            rw (after, find_factory)
              (elim (Bool-cases (text_eq r e.0)) [
                | inl same ↦
                    let it : r ≡ e.0 = (text_eq_iff r e.0).0 same in
                    let no = other_name name r e.0 other it in rw (same, no) refl
                | inr apart ↦ rw (apart) later
              ])
      ]

  abbrev or_else : Option (Text → A) → Option (Text → A) → Option (Text → A)
  or_else none y = y
  or_else (some f) y = some f

  abbrev given_if : Bool → (Text → A) → Option (Text → A) → Option (Text → A)
  given_if b f y = if b then some f else y

  or_else-none : (x : Option (Text → A)) → or_else x none ≡ x
  or_else-none none = refl
  or_else-none (some f) = refl

  or_else-given :
      (x y : Option (Text → A)) (b : Bool) (f : Text → A)
      → or_else (or_else x (given_if b f none)) y ≡ or_else x (given_if b f y)
  or_else-given none y true f = refl
  or_else-given none y false f = refl
  or_else-given (some g) y b f = refl

  -- The map is left as it is: a factory that is known for the name stands.
  known-find :
      (m : Factories A) (name given : Text) (f known : Text → A)
      → find_factory given m ≡ some known
      → find_factory name m ≡ or_else (find_factory name m) (given_if (text_eq name given) f none)
  known-find m name given f known h = elim (Bool-cases (text_eq name given)) [
    | inl same ↦
        let it : name ≡ given = (text_eq_iff name given).0 same in
        let found : find_factory name m ≡ some known =
          subst (λ t. find_factory t m ≡ some known) (sym it) h in
        rw (found) refl
    | inr apart ↦ rw (apart) (sym (or_else-none (find_factory name m)))
  ]

  new-find :
      (m : Factories A) (name given : Text) (f : Text → A)
      → find_factory given m ≡ none
      → find_factory name (emplace given f m)
        ≡ or_else (find_factory name m) (given_if (text_eq name given) f none)
  new-find m name given f h =
      let added = find-emplace given name f m h in
      elim (Bool-cases (text_eq name given)) [
        | inl same ↦
            let it : name ≡ given = (text_eq_iff name given).0 same in
            let absent : find_factory name m ≡ none =
              subst (λ t. find_factory t m ≡ none) (sym it) h in
            added ∙ (rw (same, absent) refl)
        | inr apart ↦ added ∙ (rw (apart) (sym (or_else-none (find_factory name m))))
      ]

  register-find :
      (m : Factories A) (name given : Text) (f : Text → A)
      → text_eq name [] ≡ false
      → find_factory name (register_strategy m given (some f)).0
        ≡ or_else (find_factory name m) (given_if (text_eq name given) f none)
  unfolding register_strategy
  register-find m name given f h = elim (Bool-cases (text_eq given [])) [
    | inl empty ↦
        let nameless : given ≡ [] = (text_eq_iff given []).0 empty in
        let apart : text_eq name given ≡ false =
          subst (λ t. text_eq name t ≡ false) (sym nameless) h in
        rw (empty, apart) (sym (or_else-none (find_factory name m)))
    | inr named ↦ elim (Option-cases (find_factory given m)) [
      | inl absent ↦ rw (named, absent) (new-find m name given f absent)
      | inr (known, found) ↦ rw (named, found) (known-find m name given f known found)
    ]
  ]

  run-find :
      (calls : List (Text × Option (Text → A))) (m : Factories A) (name : Text)
      → text_eq name [] ≡ false
      → find_factory name (run calls m) ≡ or_else (find_factory name m) (first_given name calls)
  unfolding run first_given register_strategy
  run-find [] m name h = sym (or_else-none (find_factory name m))
  run-find ((given, none) ∷ calls) m name h = run-find calls m name h
  run-find ((given, some f) ∷ calls) m name h =
      let later = run-find calls (register_strategy m given (some f)).0 name h in
      let registered = register-find m name given f h in
      later
      ∙ ap (λ x. or_else x (first_given name calls)) registered
      ∙ or_else-given (find_factory name m) (first_given name calls) (text_eq name given) f

  abbrev pub made_by : Text → Option (Text → A) → Result RegistryError A
  made_by config none = err unknown_strategy
  made_by config (some f) = ok (f config)

  -- Whatever is registered, `create` calls the factory of the first registration that gives one
  -- for the name, and reports an unknown strategy where there is none: a later registration of the
  -- same name changes nothing, and neither does the order of the other names.
  pub create-first :
      (calls : List (Text × Option (Text → A))) (name config : Text)
      → text_eq name [] ≡ false
      → create (run calls []) name config ≡ made_by config (first_given name calls)
  unfolding create find_factory
  create-first calls name config h =
      let found : find_factory name (run calls []) ≡ first_given name calls =
        run-find calls [] name h in
      elim (Option-cases (first_given name calls)) [
        | inl absent ↦ rw (found ∙ absent, absent, create) refl
        | inr (f, given) ↦ rw (found ∙ given, given, create) refl
      ]
