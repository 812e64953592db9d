-- ===== src/Examples/Trees.antt =====
-- A flattened device tree of one node with one property of four bytes.
use edgepi_e87n.Base.{◌≡◌, ◌≢◌, refl, List, [], ◌∷◌, ◌++◌, Bytes, be32, ok, err}
use edgepi_e87n.Fdt.{
  out_of_fuel, Property, fdt, header_of, check_header, block_of, loop, step, begin_node, end_node,
  property, finish, find_nul, join_path, path_of,
}
use edgepi_e87n.Fdt.Loop.{fdt-ends}
use edgepi_e87n.Fdt.Dictionary.{IsDictionary, fdt-IsDictionary}

-- begin "", property "a" of 4 bytes, end, end of the tree
abbrev block : Bytes
block = be32 1 ++ be32 0 ++ be32 3 ++ be32 4 ++ be32 0 ++ (7 ∷ 8 ∷ 9 ∷ 10 ∷ []) ++ be32 2 ++ be32 9

abbrev blob : Bytes
blob =
    be32 0xd00dfeed
    ++ be32 74
    ++ be32 40
    ++ be32 72
    ++ be32 0
    ++ be32 17
    ++ be32 16
    ++ be32 0
    ++ be32 2
    ++ be32 32
    ++ block
    ++ (97 ∷ 0 ∷ [])

abbrev props : List Property
props = record { key = record { node = 47 ∷ []; name = 97 ∷ [] }; value = 7 ∷ 8 ∷ 9 ∷ 10 ∷ [] } ∷ []

parsed : fdt blob ≡ ok props
unfolding fdt check_header loop step begin_node end_node property finish find_nul join_path path_of
parsed = refl

fdt-ends_example : fdt blob ≢ err out_of_fuel
fdt-ends_example = fdt-ends blob

fdt-IsDictionary_example : IsDictionary (block_of (header_of blob) blob) props
fdt-IsDictionary_example = fdt-IsDictionary blob parsed
