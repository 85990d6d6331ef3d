-- ===== src/Stack.antt =====
-- src/util/oop.h: the stacks whose operations are called through a table of functions. The bodies of
-- the functions in both tables are empty.
use pwdmanlib.Base.{
  ℕ, ◌≡◌, refl, Option, none, List, [], ◌∷◌, replicate, Result, fault, uninitialised,
}

-- The operations that a table has a function for.
data Operation : Type 0 where
  top pop push empty full destroy : Operation

pub data Function : Type 0 where
  stack_array_top stack_array_pop stack_array_push : Function
  stack_array_empty stack_array_full stack_array_destroy : Function
  stack_list_top stack_list_pop stack_list_push : Function
  stack_list_empty stack_list_full stack_list_destroy : Function

-- `struct StackInterface`: a function for each operation.
pub record StackInterface : Type 0 where
  pub top_by : Function
  pub pop_by : Function
  pub push_by : Function
  pub empty_by : Function
  pub full_by : Function
  pub destroy_by : Function

-- What lies behind the base in `struct StackArray` and `struct StackList`: the index and the cells, none
-- of them written, and the node that the list starts at.
pub data Rest : Type 0 where
  array_rest : ℕ → List (Option ℕ) → Rest
  list_rest : Option ℕ → Rest

pub record Stack : Type 0 where
  pub vtable : StackInterface
  pub rest : Rest

abbrev stack_array_max : ℕ
stack_array_max = 10000

stack_array_create : Stack
stack_array_create = record {
  vtable = record {
    top_by = stack_array_top;
    pop_by = stack_array_pop;
    push_by = stack_array_push;
    empty_by = stack_array_empty;
    full_by = stack_array_full;
    destroy_by = stack_array_destroy;
  };
  rest = array_rest 0 (replicate stack_array_max none);
}

stack_list_create : Stack
stack_list_create = record {
  vtable = record {
    top_by = stack_list_top;
    pop_by = stack_list_pop;
    push_by = stack_list_push;
    empty_by = stack_list_empty;
    full_by = stack_list_full;
    destroy_by = stack_list_destroy;
  };
  rest = list_rest none;
}

-- A function that returns nothing leaves the stack as it is; the int of one that should return it is
-- never set.
call_void : Function → Stack → Stack
call_void f s = s

call_int : Function → Stack → Result ℕ
call_int f s = fault uninitialised

-- The calls through the table.
stack_top : Stack → Result ℕ
unfolding call_int
stack_top s = call_int s.vtable.top_by s

stack_pop : Stack → Stack
unfolding call_void
stack_pop s = call_void s.vtable.pop_by s

stack_push : Stack → ℕ → Stack
unfolding call_void
stack_push s x = call_void s.vtable.push_by s

stack_empty : Stack → Result ℕ
unfolding call_int
stack_empty s = call_int s.vtable.empty_by s

stack_full : Stack → Result ℕ
unfolding call_int
stack_full s = call_int s.vtable.full_by s

stack_destroy : Stack → Stack
unfolding call_void
stack_destroy s = call_void s.vtable.destroy_by s

-- The operation that a function is of.
operation : Function → Operation
operation stack_array_top = top
operation stack_array_pop = pop
operation stack_array_push = push
operation stack_array_empty = empty
operation stack_array_full = full
operation stack_array_destroy = destroy
operation stack_list_top = top
operation stack_list_pop = pop
operation stack_list_push = push
operation stack_list_empty = empty
operation stack_list_full = full
operation stack_list_destroy = destroy

function_for : StackInterface → Operation → Function
function_for v top = v.top_by
function_for v pop = v.pop_by
function_for v push = v.push_by
function_for v empty = v.empty_by
function_for v full = v.full_by
function_for v destroy = v.destroy_by

-- No slot of the two tables is mixed up with another.
tables_match :
    (o : Operation)
    → (operation (function_for stack_array_create.vtable o) ≡ o)
      × (operation (function_for stack_list_create.vtable o) ≡ o)
unfolding operation function_for stack_array_create stack_list_create
tables_match top = (refl, refl)
tables_match pop = (refl, refl)
tables_match push = (refl, refl)
tables_match empty = (refl, refl)
tables_match full = (refl, refl)
tables_match destroy = (refl, refl)

push_all : Stack → List ℕ → Stack
push_all s [] = s
push_all s (x ∷ xs) = push_all (stack_push s x) xs

-- Whatever is pushed onto a stack, it stays as it was created.
push_all-keeps : (s : Stack) (xs : List ℕ) → push_all s xs ≡ s
unfolding push_all stack_push
push_all-keeps s [] = refl
push_all-keeps s (x ∷ xs) = push_all-keeps s xs
