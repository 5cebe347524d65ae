-- ===== src/Site/Drawing.antt =====
-- The numbers of the drawings as texts: sums of whole numbers and their halves and quarters.
use trace_graph.Base.{
  ℕ, ◌-◌, ◌*◌, ◌/◌, ◌%◌, Text, codes, decimal, leb, ◌==◌, if◌then◌else◌, [], ◌++◌,
}

-- A number of quarters.
unfoldable pub quarter_text : ℕ → Text
quarter_text q =
    decimal (q / 4)
    ++ (if q % 4 == 0
        then []
        else if q % 4 == 1
        then codes ".25"
        else if q % 4 == 2
        then codes ".5"
        else codes ".75")

-- A number of halves.
unfoldable pub half_text : ℕ → Text
unfolding quarter_text
half_text n = quarter_text (2 * n)

-- The difference of two numbers of quarters.
unfoldable pub difference_text : ℕ → ℕ → Text
unfolding quarter_text
difference_text a b = if leb b a then quarter_text (a - b) else codes "-" ++ quarter_text (b - a)
