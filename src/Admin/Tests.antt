-- ===== src/Admin/Tests.antt =====
-- Two spaces in front of a statement spoil the name of its first parameter.
use my_proxy.Base.{◌≡◌, refl, [], ◌∷◌, codes}
use my_proxy.Base.Dict.{insert}
use my_proxy.Base.Eq.{equal}
use my_proxy.Base.Text.{has_prefix, to_upper, trim_left, trim_right, contains_byte}
use my_proxy.Base.Search.{index, split_byte, split_two, trim_left_func, trim_right_func}
use my_proxy.Admin.{parse_change_master_params, add_params}

shifted :
    parse_change_master_params (codes "  CHANGE MASTER TO MASTER_HOST='h'")
    ≡ (codes "O MASTER_HOST", codes "h") ∷ []
unfolding parse_change_master_params add_params insert equal has_prefix to_upper trim_left
    trim_right contains_byte index split_byte split_two trim_left_func trim_right_func
shifted = refl
