-- ===== src/MemoryTable/Order.antt =====
-- The order of cells of src/cc/kdi/sdstore_cell.h is a strict weak order.
use kdi.Common.{Bool, not, ◌&&◌, ◌||◌, arith}
use kdi.Interval.Order.{IsStrictWeak}
use kdi.CellFilter.{int_lt, string_lt}
use kdi.CellFilter.Predicate.{int_lt-IsStrictWeak, string_lt-IsStrictWeak}
use kdi.MemoryTable.{cell_lt}

-- One order, and a second one where the first does not decide.
then_by : {A : Type 0} → (A → A → Bool) → (A → A → Bool) → A → A → Bool
then_by lt gt a b = lt a b || (not (lt b a) && gt a b)

then_by-IsStrictWeak :
    {A : Type 0} (lt gt : A → A → Bool)
    → IsStrictWeak lt
    → IsStrictWeak gt
    → IsStrictWeak (then_by lt gt)
unfolding then_by
then_by-IsStrictWeak lt gt v w = record {
  asym = λ a b h. ground (arith, v.asym a b, v.asym b a, w.asym a b);
  cotrans =
      λ a b c h. ground (arith, v.cotrans a b c, v.cotrans b c a, v.cotrans c a b, w.cotrans a b c);
}

-- The order of cells, by row, then by column, then by the later timestamp, is a strict weak order.
pub cell_lt-IsStrictWeak : IsStrictWeak cell_lt
unfolding cell_lt then_by
cell_lt-IsStrictWeak =
    then_by-IsStrictWeak (λ a b. string_lt a.row b.row) _
      (record {
        asym = λ a b h. string_lt-IsStrictWeak.asym a.row b.row h;
        cotrans = λ a b c h. string_lt-IsStrictWeak.cotrans a.row b.row c.row h;
      })
      (then_by-IsStrictWeak (λ a b. string_lt a.column b.column)
        (λ a b. int_lt b.timestamp a.timestamp)
        (record {
          asym = λ a b h. string_lt-IsStrictWeak.asym a.column b.column h;
          cotrans = λ a b c h. string_lt-IsStrictWeak.cotrans a.column b.column c.column h;
        })
        (record {
          asym = λ a b h. int_lt-IsStrictWeak.asym b.timestamp a.timestamp h;
          cotrans = λ a b c h.
              let k = int_lt-IsStrictWeak.cotrans c.timestamp b.timestamp a.timestamp h in
              ground arith;
        }))
