-- ===== src/Notify/Wording.antt =====
-- The sentence of `_announce_give_up`.
use Prim.Native.String.{String, ◌++◌}
use mathlib.Core.List.{List, [], ◌∷◌}

-- `', '.join(...)`
abbrev joined : List String → String
joined [] = ""
joined (s ∷ []) = s
joined (s ∷ t ∷ ts) = s ++ ", " ++ joined (t ∷ ts)

abbrev or_unknown : List String → String
or_unknown [] = "不明"
or_unknown (s ∷ ss) = joined (s ∷ ss)

unfoldable pub give_up_message : String → List String → String
give_up_message message channels =
    "通知を届けられませんでした(「" ++ message ++ "」、届かなかった経路: " ++ or_unknown channels ++ ")"
