-- ===== src/Programs/Fields.antt =====
-- The texts in the fields that a program prints.
use mm_mem.Base.{◌≡◌, refl, ap, List, [], ◌∷◌, ◌++◌}
use mm_mem.Text.{Text}
use mm_mem.Programs.{Item, text, field, number}

-- The texts of the fields among what is printed.
abbrev pub fields_of : {F : Type 0} → List (Item F) → List Text
fields_of [] = []
fields_of (text t ∷ rest) = fields_of rest
fields_of (field width t ∷ rest) = t ∷ fields_of rest
fields_of (number width precision n ∷ rest) = fields_of rest

pub fields_of-append :
    {F : Type 0} (a b : List (Item F)) → fields_of (a ++ b) ≡ fields_of a ++ fields_of b
fields_of-append [] b = refl
fields_of-append (text t ∷ rest) b = fields_of-append rest b
fields_of-append (field width t ∷ rest) b = ap (λ l. t ∷ l) (fields_of-append rest b)
fields_of-append (number width precision n ∷ rest) b = fields_of-append rest b
