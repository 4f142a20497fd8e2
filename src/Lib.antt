-- ===== src/Lib.antt =====
-- A multi-tenant workspace service whose authorization is a relation-tuple engine: tuples say which user,
-- or which userset, stands in a relation to an object, and a project's model says how relations follow
-- from one another.
--
-- The engine (package pkg/authz) evaluates requests against a tuple store and a model. Check decides
-- whether a user is in a userset, CheckSet whether a userset meets one, ListObjects which objects a user
-- reaches, and Expand unfolds a userset to a tree. A request has one read budget, a mark on every userset
-- of the path, which stops cycles, and a memo of results; a cycle or a chain that is too deep answers the
-- default of its polarity, which is a denial below no exclusion and an exclusion below one. The store
-- (package internal/repo/memory) keeps the tuples with the projects, workspaces, memberships,
-- invitations, groups, enrollments and seats that they are derived from, by scope, which is a project and
-- a tenant.
--
-- Which file models which part:
--   Authz/Condition    pkg/authz/conditions.go: the conditions of a grant, which fail closed
--   Authz/Model        pkg/authz/model.go: subjects, rewrites, models and the default model
--   Authz/Document     pkg/authz/model_json.go: documents of models, and the validation of references
--   Authz/State        pkg/authz/engine.go and backstop.go: evalState, charge, the keys of the memo
--   Authz/Engine       pkg/authz/engine.go: Engine, its limits and its budgets
--   Authz/Check        pkg/authz/engine.go: check, evalRewrite, evalThis, evalTupleToUserset
--   Authz/ListObjects  pkg/authz/engine.go: ListObjects
--   Authz/Tree, Expand pkg/authz/expand.go: Tree, bump, expand, expandRewrite
--   Authz/CheckSet     pkg/authz/checkset.go: CheckSet, resolveMembers, membersOfTree
--   Service/Types      internal/service/types.go: the rows that the store keeps
--   Service/Access     internal/service/service.go, projects.go: Principal, allowed, requireWorkspace
--   Service/Names      internal/service/service.go, classify.go: slugify, trimName
--   Service/Tuples     internal/service/authz.go: WriteTuples, validateTuple, ensureProjectActive
--   Service/Workspaces internal/service/workspaces.go; Members, Ownership, Invitations and Groups stand
--                      for the files of their names
--   Service/Resolver   internal/service/projects.go: modelResolver and its cache
--   Service/Projects   the same file: the requests on projects and their validation
--   Service/Roster     what the requests on workspaces, members, owners and invitations keep between
--                      rows and tuples
--   Service/Decisions  internal/service/authz.go and batchcheck.go: Check, CheckSet, Expand, ListObjects,
--                      BatchCheck
--   Service/Subjects   internal/service/authz.go: ReadTuples, DeprovisionUser, ExportSubjectGrants
--   Service/Consistency  internal/consistencytoken/token.go, and the tokens of internal/service/authz.go
--   Service/Seats      internal/service/seats.go: the seat operations
--   Store/Keys         internal/repo/memory/memory.go: scope, part, subjectKey, tupleKey
--   Store/Tuples       the same file: the tuple table and its sequence
--   Store/Workspaces   the same file: projects, workspaces, memberships and invitations
--   Store/Groups       the same file: groups and enrollments
--   Store/Seats        the same file: seats and their limits
-- Authz/Decision is the independent description of the engine: an inductive relation of what the rules
-- and the stored tuples decide, with neither budget, depth, marks nor memo. Authz/Keys says which
-- usersets have unambiguous keys: no colon in a namespace and no number sign in an object id.
--
-- How the state corresponds: evalState is the record EvalState, which every function of the engine passes
-- on, and the operations are actions on it that return a result or an error. The expansion's counter and
-- marks are ExpandState, and the resolution of members has MemberState. The store is a record of its ten
-- maps; each operation holds the lock from begin to end, so it is one action. A map that is ranged over
-- is an association list in the order of first insertion. An int is an integer whose products are reduced
-- to 64 bits where the code multiplies; counters of reads and nodes are natural numbers.
-- EvalState has a counter that the code has not: list_calls, which each call of ListSubjects adds to, so
-- that a bound on the reads is on the calls and not on the charges.
--
-- Bounds and fuel: the recursion of check, expand and resolveMembers is on the levels that remain,
-- maxDepth + 1 - depth, which is the code's own bound, so no other fuel is needed. The decimal print of
-- a number has its number as fuel.
--
-- The services are actions on the store: a request is the sequence of its calls of the store, one after
-- the other, without those of another request in between, so a theorem on sequences of requests is about
-- requests that are served one at a time. The engine of a request reads the store as it stands. The
-- resolver of a process is a state of its own next to the store; elsewhere a service has what a project
-- resolves to as its field resolve, which Service/Resolver justifies for one process.
--
-- Parameters: the tuple reader, the model resolver and the object lister are functions in Engine, read as
-- they stand when a request begins; net, time and the comparison of float64 are the record Library; the
-- JSON decoder and encoder are arguments of parse_model and marshal_model and the record ModelJson, and
-- those of a token with its base64 are the record Wire. The instant of a request, the ids that it draws,
-- the hash of a token and strings.ToLower are arguments too.
--
-- Not modelled: the records of audits and decisions, logs and metrics, which follow an answer and do not
-- change it; the connect handlers, the middleware and the configuration, which translate between the
-- services and the wire; the postgres store, whose behaviour is SQL; and generated code. The calls of the
-- store of two requests that interleave are not modelled. The text of an error is the innermost one,
-- without what wraps it.
pub mod Base
pub mod Authz
pub mod Service
pub mod Store
