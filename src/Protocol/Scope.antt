-- ===== src/Protocol/Scope.antt =====
-- `CommandScope`, `CommandSyntax` and the constants that the command definitions share
-- (protocol/constants.py).
use py_legacy.Common.{
  ℕ, Bool, true, List, [], ◌∷◌, ◌==◌, none, some, get_elem?, ◌≡◌, refl, sym, ap, ◌∙◌, eq_of_==,
}
use py_legacy.Common.Int.{ℤ, pos, negsuc}

pub data CommandScope : Type 0 where
  engine train switch route acc system asc2 amc2 bpc2 irda stm2 base sync block configured :
      CommandScope

-- The enum's values.
abbrev pub scope_value : CommandScope → ℕ
scope_value engine = 1
scope_value train = 2
scope_value switch = 3
scope_value route = 4
scope_value acc = 5
scope_value system = 6
scope_value asc2 = 7
scope_value amc2 = 8
scope_value bpc2 = 9
scope_value irda = 10
scope_value stm2 = 11
scope_value base = 12
scope_value sync = 13
scope_value block = 14
scope_value configured = 15

abbrev pub same_scope : CommandScope → CommandScope → Bool
same_scope a b = scope_value a == scope_value b

-- Two scopes with the same value are the same.
abbrev every_scope : List CommandScope
every_scope =
    engine ∷ engine ∷ train ∷ switch ∷ route ∷ acc ∷ system ∷ asc2 ∷ amc2 ∷ bpc2 ∷ irda ∷ stm2
    ∷ base ∷ sync ∷ block ∷ configured ∷ []

scope_of_value : ℕ → CommandScope
scope_of_value n = elim (get_elem? every_scope n) [ none ↦ engine | some s ↦ s ]

scope_of_value_lem : (s : CommandScope) → scope_of_value (scope_value s) ≡ s
unfolding scope_of_value
scope_of_value_lem engine = refl
scope_of_value_lem train = refl
scope_of_value_lem switch = refl
scope_of_value_lem route = refl
scope_of_value_lem acc = refl
scope_of_value_lem system = refl
scope_of_value_lem asc2 = refl
scope_of_value_lem amc2 = refl
scope_of_value_lem bpc2 = refl
scope_of_value_lem irda = refl
scope_of_value_lem stm2 = refl
scope_of_value_lem base = refl
scope_of_value_lem sync = refl
scope_of_value_lem block = refl
scope_of_value_lem configured = refl

pub same_scope_lem : (a b : CommandScope) → same_scope a b ≡ true → a ≡ b
same_scope_lem a b h =
    sym (scope_of_value_lem a)
    ∙ (ap scope_of_value (eq_of_== (scope_value a) (scope_value b) h) ∙ scope_of_value_lem b)

-- `PDI` is the syntax of no command definition.
pub data CommandSyntax : Type 0 where
  tmcc legacy : CommandSyntax

abbrev pub default_address : ℕ
default_address = 99

abbrev pub default_engine_labor : ℕ
default_engine_labor = 12

-- `dict(zip(range(-5, 6), range(0, 11)))`
abbrev pub relative_speed_map : List (ℤ × ℕ)
relative_speed_map =
    (negsuc 4, 0)
    ∷ (negsuc 3, 1)
    ∷ (negsuc 2, 2)
    ∷ (negsuc 1, 3)
    ∷ (negsuc 0, 4)
    ∷ (pos 0, 5)
    ∷ (pos 1, 6)
    ∷ (pos 2, 7)
    ∷ (pos 3, 8)
    ∷ (pos 4, 9)
    ∷ (pos 5, 10)
    ∷ []

-- `dict(zip(range(-3, 0), range(1, 4)))`
abbrev pub reverse_speed_map : List (ℤ × ℕ)
reverse_speed_map = (negsuc 2, 1) ∷ (negsuc 1, 2) ∷ (negsuc 0, 3) ∷ []
