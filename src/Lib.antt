-- ===== src/Lib.antt =====
-- Gluon: an embeddable language with a layout-sensitive parser, a type checker and a virtual machine.
-- The library models nine parts of it, each from its source.
--
-- The parts and how they interact.
--   ScopedMap (base/src/scoped_map.rs): the map of scopes that the checker, the renamer and the
--     compiler use for variables. `Assoc` is the table of values, `Trail` the specification: one list
--     of bindings and scope markers. `Laws`, `Leaving` and `Nesting` have the proofs.
--   Stack (vm/src/stack.rs): the value stack and the frame stack of the virtual machine. `Data` has the
--     records, `Ops` the methods of `Stack`, `Frames` those of `StackFrame`, `Valid` the invariant,
--     `Pops`, `Scopes` and `Views` the proofs.
--   Layout (parser/src/layout.rs, parser/src/token.rs, base/src/pos.rs): between the lexer and the
--     grammar, it inserts block tokens, separators and `in`. `Tokens` and `Contexts` have the data,
--     `Stream` the reads ahead, `Step` and `Next` the loop of `layout_next_token` in its parts; `Source`,
--     `Parts`, `Rules`, `Rounds`, `Inserted` and `Conserve` have the proofs about the tokens, `Rooted`, `Reads`,
--     `Bases` and `Panics` those about the contexts.
--   Infix (parser/src/infix.rs): after the grammar, it regroups infix expressions. `Table` is
--     `OpTable::get`, `Decide` the comparison of two operators, `Reparse` the loop of `reparse` and the
--     iterator `Infixes`; `Yields`, `Sound`, `Respects` and `Grouping` have the proofs.
--   SourceMap (vm/src/source_map.rs): the line of each instruction, which `Stack::stacktrace` reads
--     through the field `line` of a closure's data, and in `Locals` the range of each local variable.
--     `Lines` and `Ranges` have the proofs.
--   Bytecode (vm/src/types.rs, vm/src/compiler.rs): the end of the compiler, which emits instructions
--     into a `FunctionEnv`. `Instructions` has the instructions and `adjust`, `Function` the records,
--     `Tables` the constants, fields and free variables, `Emitter` the emission, which fills a
--     SourceMap, and `Variables` the variables, which a ScopedMap keeps. `Effects`, `Sizes`, `Bounds`,
--     `Emissions`, `LineTable`, `Constants` and `Scopes` have the proofs.
--   Interp (vm/src/thread.rs, vm/src/value.rs): the interpreter, which runs the instructions of Bytecode
--     on the views of Stack. `Data` has the values, objects and results, `Arith` the operators,
--     `Objects` and `Access` what makes and reads objects, `Step` one instruction of `execute_`, `Calls`
--     the calls and returns, `Loop` the loop. `Heights`, `Moves`, `Reads`, `Rounds`, `Effects` and
--     `Bounds` have the proofs about the stack, `Layouts`, `Currying` and `Returns` those about calls.
--   CodeMap (base/src/source.rs, base/src/pos.rs): the files of a program, each at a range of positions,
--     in which the positions of the tokens and of the errors are looked up. `Update` has `update`;
--     `Order`, `Search`, `Locate`, `Puts`, `Placing` and `Updating` have the proofs.
--   Merge (base/src/merge.rs): what the traversals of types and of syntax share: it puts what changed
--     together with copies of the rest. `Collect` has the proofs about the iterator.
-- A definition has the name of the function it models; a part of a longer function has a name of its
-- own, and its comment says which part it is.
--
-- Conventions.
--   Numbers are natural numbers. The stack's indexes are 32 bits wide: `Ops.len` wraps as the cast
--     does, and an addition or subtraction out of range panics, as in a build with overflow checks.
--     A precedence is not negative.
--   A vector that is used as a stack is a list whose head is its last element, except the values of the
--     stack and the source map, which are in the vector's order. A hash map is an association list under
--     a decidable equality.
--   `Outcome` is the result of code that may panic, `Res` that of the layout, with its errors. On an
--     error the state is dropped, since the callers read no more tokens.
--   In the interpreter the heap is a list of objects that are never collected, and a pointer is the
--     index of its object. A result is a value, an error of the machine or a panic. What the machine
--     takes from elsewhere is a parameter: the functions that are loaded, the room that the collector
--     finds, and the arithmetic on floats. The casts to and from signed numbers are written out.
--   Elsewhere, garbage collected values, symbols and the texts of tokens are type parameters or numbers.
--
-- Fuel.
--   `exit_scope` has one round more than there are scopes. The look ahead for a `rec` block has three
--     rounds more than there are tokens, and the layout loop two for each context and two more.
--     `reparse` counts three rounds for each operator and one for the last operand. These are enough,
--     since a round of `exit_scope` takes a scope off, a look ahead goes one token further, a round of
--     the layout pops a context or closes a block, and an operator is read once and reduced once.
--     The binary search has a round for each file, and a round has fewer files left. The loop of the
--     interpreter has one round for each instruction or call; a program may loop, so it may run out.
--     To collect a `MergeIter` has one round more than there are items, and `next` calls itself once.
--
-- What is left out.
--   The lexer, the grammar, the syntax tree's other passes, the checker, the optimizer, the collector,
--   channels and the embedding interface. Of the compiler: the walk over core expressions and the
--   lookup of fields and globals through the types. Of the interpreter: extern functions and their
--   futures, hooks, and the threads with their roots. Of the code map: lines and columns, which a
--   library keeps, and positions of more than 32 bits. Of the other modelled files: printing, tracing,
--   the methods that only hand out references, and the `Reparser` visitor. Implicit arguments of infix
--   expressions are absent, as `Infixes` asserts that there are none.
pub mod Prelude
pub mod ScopedMap
pub mod Stack
pub mod Layout
pub mod Infix
pub mod SourceMap
pub mod Bytecode
pub mod Interp
pub mod CodeMap
pub mod Merge
