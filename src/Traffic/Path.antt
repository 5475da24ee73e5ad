-- ===== src/Traffic/Path.antt =====
-- A2/cars.c: the quadrants that a car passes.
use csc369_assignments.Prelude.{ℕ, ◌∷◌, [], List, Option, none, some, ◌==◌, if◌then◌else◌}
use csc369_assignments.Prelude.Int.{ℤ, pos, negsuc, dec}

-- `enum direction`
abbrev pub north : ℕ
north = 0

abbrev pub west : ℕ
west = 1

abbrev pub south : ℕ
south = 2

abbrev pub east : ℕ
east = 3

-- `insert_quads`
unfoldable pub insert_quads : ℕ → ℕ → ℕ → ℕ → List ℤ
insert_quads step_1 step_2 step_3 step_4 =
    dec (pos step_1) ∷ dec (pos step_2) ∷ dec (pos step_3) ∷ dec (pos step_4) ∷ []

-- The case of a car that comes from the north, and so on.
abbrev from_north : ℕ → Option (List ℤ)
from_north out_dir =
    if out_dir == west
    then some (insert_quads 2 0 0 0)
    else if out_dir == south
    then some (insert_quads 2 3 0 0)
    else if out_dir == east
    then some (insert_quads 2 3 4 0)
    else none

abbrev from_west : ℕ → Option (List ℤ)
from_west out_dir =
    if out_dir == south
    then some (insert_quads 3 0 0 0)
    else if out_dir == east
    then some (insert_quads 3 4 0 0)
    else if out_dir == north
    then some (insert_quads 1 3 4 0)
    else none

abbrev from_south : ℕ → Option (List ℤ)
from_south out_dir =
    if out_dir == east
    then some (insert_quads 4 0 0 0)
    else if out_dir == north
    then some (insert_quads 1 4 0 0)
    else if out_dir == west
    then some (insert_quads 1 2 4 0)
    else none

abbrev from_east : ℕ → Option (List ℤ)
from_east out_dir =
    if out_dir == north
    then some (insert_quads 1 0 0 0)
    else if out_dir == west
    then some (insert_quads 1 2 0 0)
    else if out_dir == south
    then some (insert_quads 1 2 3 0)
    else none

-- `compute_path`; `none` is the null pointer.
unfoldable pub compute_path : ℕ → ℕ → Option (List ℤ)
compute_path in_dir out_dir =
    if in_dir == out_dir
    then some (insert_quads 1 2 3 4)
    else if in_dir == north
    then from_north out_dir
    else if in_dir == west
    then from_west out_dir
    else if in_dir == south
    then from_south out_dir
    else if in_dir == east
    then from_east out_dir
    else none

-- The quadrants that the loops of `car_cross` lock and unlock, in their order: the entries but -1.
unfoldable pub quads : List ℤ → List ℕ
quads [] = []
quads (pos q ∷ path) = q ∷ quads path
quads (negsuc n ∷ path) = quads path
