-- ===== src/Lib.antt =====
-- be_mycourse: the authorization core, the life of courses, slugs, the circuit breaker,
-- the rate limits and taxonomy trees of the mycourse back end.
--
-- Parts and how they interact. A module of the program registers a policy provider with its
-- actions (internal/authorization/application/registry.go). Authorize (authorizer.go) decides a
-- request from the action's boundary permission, the provider's answer and the grants that the
-- repository lists (internal/authorization/infra/gorm_repository.go): grants stored as rows, and
-- grants expanded from role bindings. GrantService and RoleBindingService write these rows for
-- issuers who may manage them. The projector answers many pairs of a user and an action with one
-- query. Course is the provider of the Course module, whose repository asks Authorize about every
-- call of an owner or an editor, keeps drafts, reviews and publications as versions of a course, and
-- hands out leases for editing. The circuit breaker and the rate limits guard requests and
-- commands. Topics and skills keep trees of nodes, which are validated and get their slugs before
-- they are written.
--
-- Files, with the code under internal/ that each models:
--   Shared              bytes as texts, strings.TrimSpace, sorting, Go maps, results, integers
--   Authorization
--     Domain            authorization/domain/authorization.go, shared/requestprincipal
--     Conditions        authorization/application/conditions.go
--     Registry          authorization/application/registry.go
--     Authorizer        authorization/application/authorizer.go: prepare, then decide_prepared
--     Names             uniqueNonEmpty of grant_service.go
--     Grants            authorization/application/grant_service.go, over a record GrantRepository
--     RoleBindings      authorization/application/role_binding_service.go
--     Store             authorization/infra/gorm_repository.go: tables as lists of rows
--     Projector         authorization/application/effective_action_projector.go
--   Course              course/application/authorization_policy.go
--     Rows              course/infra/repos.go: the tables, with SELECT, UPDATE and INSERT
--     Environment       what the repository reads of other modules and of libraries
--     Access            course/infra/repo_access.go: loading, and requireCourseAction
--     Drafts            repo_versioning.go: createNextDraftVersion and what it copies
--     Content, Submit   repo_versioning.go, repo_submit_validation.go: the checks of a draft
--     Lifecycle         repo_instructor.go, repo_review.go: a function per operation; Requests runs
--                       them, Steps says which tables are reachable
--     Removal           repo_admin.go: trash and deletion
--     Learner           repo_learner.go: enrolling and progress
--     Leases            repo_outline.go: AcquireLease, HeartbeatLease, ReleaseLease
--   Resilience          shared/resilience/circuitbreaker.go: State, Breaker, a function per
--                       operation, Event and Reachable for any interleaving of them
--   RateLimit           shared/ratelimit/window.go and file.go
--   Slugs               shared/slug: format.go, input.go, autobase.go, reserved.go, suffix.go and
--                       resolve.go
--   Taxonomy            shared/taxonomy/tree_node.go and tree_validate.go
--     Writing           tree_write.go, and the write rules of tree_resolve.go
--   Examples            concrete inputs
-- The child modules of these hold their theorems.
--
-- Conventions. A function that returns an error returns a Result; a service call returns the new
-- state of the repository, and leaves the old one when it fails. Every loop is structural
-- recursion on what it runs over, but for trimming, whose fuel is the length of the text: each
-- round takes off a space of at least one byte, and the loop of RetryWithSuffix, which gets a
-- number of rounds and a list of random bytes: more rounds than the longest slug has bytes are
-- enough, as no suffix of that length fits. int64 seconds are unbounded integers: the modelled
-- code only counts with them or adds a duration. Strings are lists of bytes, and compare byte by
-- byte.
--
-- A course operation is one transaction, which an error rolls back. version_no and row_version are
-- unbounded naturals: a column would overflow after 2^31 versions of one course.
--
-- Parameters. Environment holds the clock, new ids, JSON and letter case, what columns of types
-- UUID, NUMERIC and JSONB store for a value, and the tables of other modules. Runtime holds the
-- float64 conversions and time.Parse; the clock, generated ids, the principal resolver,
-- uuid.Parse, gosimple/slug, the bytes of crypto/rand, the look-up of a slug and what Redis or a
-- file holds are arguments.
--
-- Not modelled: logging, JSON coding, transactions that fail, the limits and normal forms of the
-- columns of other tables than course_progress_items, the tickers, HTTP and SQL transport, the
-- edits of outlines, the lists of courses, the look-up of slugs in a table, and the other modules
-- of the program (auth, media, instructor, taxonomy, rbac, system, server).
pub mod Shared
pub mod Authorization
pub mod Course
pub mod Examples
pub mod RateLimit
pub mod Resilience
pub mod Slugs
pub mod Taxonomy
