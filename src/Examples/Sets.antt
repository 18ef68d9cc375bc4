-- ===== src/Examples/Sets.antt =====
-- redis-2.6.14/src/intset.c: a set of one value, and one that is upgraded.
use galery.Prelude.{◌<◌, ◌≡◌, ◌^◌, refl, arith}
use galery.Prelude.Int.{pos, negsuc}
use galery.Intset.{
  Intset, value_encoding, intset_new, intset_resize, intset_search, intset_add, intset_remove,
  set_at,
}
use galery.Intset.Search.{IsIntset, intset_new-IsIntset}
use galery.Intset.Insert.{Adds, intset_add-Adds}
use galery.Intset.Remove.{Removes, intset_remove-Removes}

abbrev five : Intset
five = (intset_add intset_new (pos 5)).1

five-IsIntset : IsIntset five
unfolding intset_new
five-IsIntset =
    (intset_add-Adds intset_new (pos 5) intset_new-IsIntset (omega arith)
      (omega arith, omega arith)).valid

five-len : five.len ≡ 1
unfolding intset_add intset_new intset_search intset_resize set_at value_encoding
five-len = refl

five-small : five.len < 2 ^ 28
five-small = omega (arith, five-len)

-- A value that needs 32 bits, and is below the first one.
intset_add-Adds_example :
    Adds five (negsuc 39999) five-IsIntset five-small (intset_add five (negsuc 39999))
intset_add-Adds_example =
    intset_add-Adds five (negsuc 39999) five-IsIntset five-small (omega arith, omega arith)

intset_remove-Removes_example : Removes five (pos 5) five-IsIntset (intset_remove five (pos 5))
intset_remove-Removes_example = intset_remove-Removes five (pos 5) five-IsIntset five-small
