-- ===== src/MutableLong/Tests.antt =====
-- Runs of lib/types/mutable-long.js, and its theorems at concrete inputs.
use integration_hell.Common.{◌-◌, ◌^◌, ◌≡◌, arith}
use integration_hell.MutableLong.{MutableLong, multiply, multiply_self, new, negate}
use integration_hell.MutableLong.Value.{IsValid, value, value-negate}
use integration_hell.MutableLong.Multiply.{value-multiply, value-multiply_self}

-- -3 and 70000
abbrev minus_three : MutableLong
minus_three = new 65533 65535 65535 65535

abbrev seventy : MutableLong
seventy = new 4464 1 0 0

minus_three-IsValid : IsValid minus_three
minus_three-IsValid = omega arith

seventy-IsValid : IsValid seventy
seventy-IsValid = omega arith

value-negate_example : value (negate minus_three) ≡ 3
value-negate_example = value-negate minus_three minus_three-IsValid

value-multiply_example : value (multiply minus_three seventy) ≡ 2 ^ 64 - 210000
value-multiply_example = value-multiply minus_three seventy minus_three-IsValid seventy-IsValid

value-multiply_self_example : value (multiply_self minus_three) ≡ 2 ^ 64 - 9
value-multiply_self_example = value-multiply_self minus_three minus_three-IsValid (omega arith)
