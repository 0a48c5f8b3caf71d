-- ===== src/Mapper/Variables/ReadBack.antt =====
-- What a read of a variable gives behind SET GLOBAL.
use my_proxy.Base.{
  ◌≡◌, refl, sym, ap, ◌∙◌, Bool, true, false, Option, none, some, Bytes, if◌then◌else◌, Bool-cases,
  inl, inr,
}
use my_proxy.Base.Dict.{lookup, lookup-insert}
use my_proxy.Base.Eq.{equal, equal_iff, bytes_eq}
use my_proxy.Base.Search.{to_lower}
use my_proxy.Postgres.{Postgres}
use my_proxy.Mapper.Variables.Table.{VarMapping, mysql_to_postgres_vars}
use my_proxy.Mapper.Variables.Access.{
  Overrides, set_internal_var, get_internal_var, get_var_mapping, set_mapped, handle_set_global,
  overridden_or, value_of_mapped, get_mysql_var_value,
}

first_either :
    {X Y : Type 0} (b : Bool) (x : X) (p q : Y) → (if◌then◌else◌ {A = X × Y} b (x, p) (x, q)).0 ≡ x
first_either true x p q = refl
first_either false x p q = refl

if_true : {A : Type 0} {b : Bool} (x y : A) → b ≡ true → (if b then x else y) ≡ x
if_true x y e = rw e refl

if_false : {A : Type 0} {b : Bool} (x y : A) → b ≡ false → (if b then x else y) ≡ y
if_false x y e = rw e refl

module _ {C R : Type 0} (pg : Postgres C R) where
  -- Every mapping that there is leaves the value, whatever the server answers.
  handle_set_global-overrides :
      (name value : Bytes) (o : Overrides) (c : C) (m : VarMapping)
      → get_var_mapping name ≡ some m
      → (handle_set_global pg name value o c).0 ≡ set_internal_var name value o
  unfolding handle_set_global
  handle_set_global-overrides name value o c m e =
      ap (λ found. (set_mapped pg name value o c found).0) e ∙ first_either _ _ _ _

  overridden_or-insert :
      (name other value : Bytes) (o : Overrides) (c : C) (m : VarMapping)
      → overridden_or pg m c (get_internal_var other (set_internal_var name value o)) ≡ (
          if equal (to_lower name) (to_lower other)
          then (c, (value, (true, none)))
          else overridden_or pg m c (get_internal_var other o))
  overridden_or-insert name other value o c m =
      ap (overridden_or pg m c) (lookup-insert (to_lower name) (to_lower other) value o)
      ∙ choose (equal (to_lower name) (to_lower other))
    where
      choose :
          (b : Bool)
          → overridden_or pg m c (if b then some value else get_internal_var other o) ≡ (
              if b
              then (c, (value, (true, none)))
              else overridden_or pg m c (get_internal_var other o))
      choose true = refl
      choose false = refl

  value_of_mapped-apart :
      (name other value : Bytes) (o : Overrides) (c : C) (found : Option VarMapping)
      → equal (to_lower name) (to_lower other) ≡ false
      → value_of_mapped pg other (set_internal_var name value o) c found
        ≡ value_of_mapped pg other o c found
  value_of_mapped-apart name other value o c none apart = refl
  value_of_mapped-apart name other value o c (some m) apart =
      overridden_or-insert name other value o c m ∙ if_false _ _ apart

  -- SET GLOBAL of a variable that the table has, whatever the server answers to its statements: a
  -- read of the same variable, in any case of its letters and on any connection, asks nothing and
  -- gives the value, and a read of any other variable gives what it gave.
  pub get_mysql_var_value-handle_set_global :
      (name other value : Bytes) (o : Overrides) (c d : C) (m : VarMapping)
      → get_var_mapping name ≡ some m
      → get_mysql_var_value pg other (handle_set_global pg name value o c).0 d ≡ (
          if equal (to_lower name) (to_lower other)
          then (d, (value, (true, none)))
          else get_mysql_var_value pg other o d)
  unfolding get_mysql_var_value get_var_mapping
  get_mysql_var_value-handle_set_global name other value o c d m e =
      ap (λ p. get_mysql_var_value pg other p d) (handle_set_global-overrides name value o c m e)
      ∙ elim (Bool-cases (equal (to_lower name) (to_lower other))) [
        | inl same ↦
            let known : get_var_mapping other ≡ some m =
              ap (λ k. lookup k mysql_to_postgres_vars)
                (sym ((equal_iff (to_lower name) (to_lower other)).0 same))
              ∙ e in
            ap (value_of_mapped pg other (set_internal_var name value o) d) known
            ∙ overridden_or-insert name other value o d m
            ∙ if_true _ _ same
            ∙ sym (if_true _ _ same)
        | inr apart ↦
            value_of_mapped-apart name other value o d (get_var_mapping other) apart
            ∙ sym (if_false _ _ apart)
      ]
