-- ===== src/Opcodes.antt =====
-- src/chunk.h: the numbers of the instructions.
use my_clox.Prelude.{ℕ}

abbrev pub op_constant : ℕ
op_constant = 0

abbrev pub op_nil : ℕ
op_nil = 1

abbrev pub op_true : ℕ
op_true = 2

abbrev pub op_false : ℕ
op_false = 3

abbrev pub op_pop : ℕ
op_pop = 4

abbrev pub op_get_local : ℕ
op_get_local = 5

abbrev pub op_set_local : ℕ
op_set_local = 6

abbrev pub op_get_global : ℕ
op_get_global = 7

abbrev pub op_define_global : ℕ
op_define_global = 8

abbrev pub op_set_global : ℕ
op_set_global = 9

abbrev pub op_get_upvalue : ℕ
op_get_upvalue = 10

abbrev pub op_set_upvalue : ℕ
op_set_upvalue = 11

abbrev pub op_get_property : ℕ
op_get_property = 12

abbrev pub op_set_property : ℕ
op_set_property = 13

abbrev pub op_get_super : ℕ
op_get_super = 14

abbrev pub op_equal : ℕ
op_equal = 15

abbrev pub op_greater : ℕ
op_greater = 16

abbrev pub op_less : ℕ
op_less = 17

abbrev pub op_add : ℕ
op_add = 18

abbrev pub op_subtract : ℕ
op_subtract = 19

abbrev pub op_multiply : ℕ
op_multiply = 20

abbrev pub op_divide : ℕ
op_divide = 21

abbrev pub op_not : ℕ
op_not = 22

abbrev pub op_negate : ℕ
op_negate = 23

abbrev pub op_print : ℕ
op_print = 24

abbrev pub op_jump : ℕ
op_jump = 25

abbrev pub op_jump_if_false : ℕ
op_jump_if_false = 26

abbrev pub op_loop : ℕ
op_loop = 27

abbrev pub op_call : ℕ
op_call = 28

abbrev pub op_invoke : ℕ
op_invoke = 29

abbrev pub op_super_invoke : ℕ
op_super_invoke = 30

abbrev pub op_closure : ℕ
op_closure = 31

abbrev pub op_close_upvalue : ℕ
op_close_upvalue = 32

abbrev pub op_return : ℕ
op_return = 33

abbrev pub op_class : ℕ
op_class = 34

abbrev pub op_inherit : ℕ
op_inherit = 35

abbrev pub op_method : ℕ
op_method = 36
