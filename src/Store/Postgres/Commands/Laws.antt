-- ===== src/Store/Postgres/Commands/Laws.antt =====
-- Values and the SQL around them are not kept apart.
use nestjs_microservice_boil.Base.{
  codes, Text, List, [], ◌∷◌, ◌++◌, map, join, ◌≡◌, refl, ap, sym, ◌∙◌,
}
use mathlib.Core.Path.{fun_ext}
use mathlib.Core.List.{append_assoc}
use nestjs_microservice_boil.Exec.{World, query}
use nestjs_microservice_boil.Value.{Value, text}
use nestjs_microservice_boil.Store.Commands.{equal, OperationCommand}
use nestjs_microservice_boil.Store.Postgres.{TypeOrm, raw, only_where}
use nestjs_microservice_boil.Store.Postgres.Commands.{find_by_commands, search_where}

join-joined :
    (separator a b : Text) (rest : List Text)
    → join separator ((a ++ separator ++ b) ∷ rest) ≡ join separator (a ∷ b ∷ rest)
join-joined separator a b [] = refl
join-joined separator a b (c ∷ rest) = simp append_assoc

abbrev pub equal_command : Text → List Value → OperationCommand
equal_command property value = record { property = property; value = value; command = equal }

-- With the command `equal`, a search for one value that has ", " in it is the search for the two values
-- on its sides, where a text is shown as itself: a caller that passes a text on cannot ask for that text alone.
pub find_by_commands-injection :
    {D E : Type 0} (to_string : Value → Text) (orm : TypeOrm D E) (property a b : Text)
    (rest : List Value) (filter_list : List OperationCommand) (w : World D)
    → ((s : Text) → to_string (text s) ≡ s)
    → (find_by_commands to_string orm
          (equal_command property (text (a ++ codes ", " ++ b) ∷ rest) ∷ filter_list)
          w
        ≡ find_by_commands to_string orm
            (equal_command property (text a ∷ text b ∷ rest) ∷ filter_list)
            w)
unfolding find_by_commands
find_by_commands-injection to_string orm property a b rest filter_list w h =
    let comma = codes ", " in
    let texts : List Text = map to_string rest in
    let same = fun_ext λ (alias : Text).
      ap (λ list. alias ++ codes " ILIKE ANY ('{" ++ list ++ codes "}')")
        (ap (λ s. join comma (s ∷ texts)) (h (a ++ comma ++ b))
          ∙ (join-joined comma a b texts
              ∙ (ap (λ s. join comma (s ∷ b ∷ texts)) (sym (h a))
                  ∙ ap (λ s. join comma (to_string (text a) ∷ s ∷ texts)) (sym (h b))))) in
    ap
      (λ q.
        query
          (orm.find (only_where (search_where to_string filter_list ((property, raw q []) ∷ []))))
          w)
      same
