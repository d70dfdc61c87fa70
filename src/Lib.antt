-- ===== src/Lib.antt =====
-- The domains of uniedit-server, a Go server for an AI code editor, as functional models with
-- their theorems: money (orders, payments, and subscriptions with their credits and quotas), users with
-- their logins and keys, teams, git repositories with their pull requests, LFS objects and locks of files,
-- the routes of requests to AI models, videos, and background tasks.
--
-- Parts. A user orders a plan or a top-up of credits (the order service), pays the order with Stripe,
-- Alipay or WeChat (the payment service), and receives credits on a subscription whose plan also
-- limits tokens and requests (the billing service). Each domain has an aggregate, whose methods
-- check and change one object, and a service, which works on rows through ports (the interfaces of
-- internal/port/outbound). The payment service reads orders and subscriptions through adapters that
-- the application wires. The user service registers users and verifies their emails; the
-- authentication service, which reads users from it, gives them sessions (refresh tokens) and keys. A
-- team has members with roles, which also stand for permissions on git, and invites new ones; users
-- lock files of the repositories they have access to. A request to an AI model is routed by a chain of strategies,
-- which filter and score the models, to a provider and one of its accounts, whose failures degrade its health.
-- A video is a task that a worker submits to a provider and then polls; the manager of background tasks
-- executes, polls, cancels and recovers tasks of any type.
--
-- Files. Common and its children: Boolean tests and equality, lists, results, integers with
-- their `int64` operations, the effects of a service, and rules to prove an invariant of a world over
-- the lines of a method (Safety) and what holds when one has returned (Outcome). For each domain, Errors and Status hold its
-- constants, Aggregate (Subscription for billing) the object, Calls a history of calls as data, and
-- the theorems stand in files named for what they prove; witnesses and tests in Examples.
-- - Order: internal/domain/order/{money,status,order}.go (Money, Status, Item, Aggregate); the rows of
--   internal/model/order.go (Model); internal/domain/order/domain.go over internal/port/outbound/order.go
--   (Ports, Service.Create, Service.Transitions).
-- - Payment: internal/domain/payment/{status,payment}.go (Status, Aggregate);
--   internal/domain/payment/domain.go over internal/port/outbound/payment.go and the records of
--   internal/model/payment.go (Ports, Service.Create, .Refund, .Stripe, .Native).
-- - Billing: internal/domain/billing/{status,subscription}.go (Status, Subscription); plans of
--   internal/model/billing.go (Plan); internal/domain/billing/domain.go over
--   internal/port/outbound/billing.go (Ports, Service.Quota, Service.Account).
-- - App: internal/app/app.go and internal/app/providers.go: the adapters that let the payment service
--   read orders and subscriptions (OrderReader, BillingReader) and its wiring (Payments).
-- - Git: internal/domain/git/domain.go (Access, Slugs, Storage, Repos, Collaborators, PullRequests), with
--   internal/domain/git/config.go; internal/domain/git/lfs_domain.go (Objects) and
--   internal/domain/git/lfs_lock_domain.go (Locks), over the rows of internal/model/git.go (Model) and
--   the ports of internal/port/outbound/git.go (Ports). Merging is about histories of calls on pull
--   requests, which Calls makes data and Table the promises of their rows; Creation is about
--   new repositories and their owners, Batches about answers to LFS batches.
-- - Collaboration: internal/domain/collaboration/roles.go (Roles), config.go and the outputs of
--   internal/port/inbound/collaboration.go (Views), domain.go (Teams, Members, Invitations), over
--   internal/model/collaboration.go (Model) and internal/port/outbound/collaboration.go (Ports); what the
--   database promises (Table), and that each operation keeps a team's owner (Ownership).
-- - User: internal/model/user.go (Model), internal/domain/user/{user,verification}.go (Aggregate), and
--   internal/domain/user/domain.go (Service.Accounts, .Registration, .Admin) over
--   internal/port/outbound/user.go (Ports).
-- - Auth: internal/model/auth.go (Model), internal/domain/auth/api_key_util.go (Keys), and
--   internal/domain/auth/domain.go (Sessions, UserKeys, SystemKeys) over internal/port/outbound/auth.go
--   (Ports).
-- - Ai: internal/domain/ai/strategy.go, how the chain of strategies chooses a model for a request
--   (Strategies, Chain), over internal/model/ai.go (Model); internal/domain/ai/domain.go, the route of
--   a request (Routing) and the health of providers and accounts (Health), over
--   internal/port/outbound/ai.go (Ports). `float64` and `sort.Slice` are parameters: of a sort
--   it is used that it permutes, and leaves a list with strictly falling integer keys as it is.
-- - Task: internal/infra/task/{model,repository,manager}.go (Model, Ports, Manager, and the loop of
--   `pollExternalTask` in Polling). What a method starts with `go` is a value that it returns, or a method of
--   its own; Races is about such a goroutine beside a call of `Cancel`.
-- - Media: internal/domain/media/domain.go: the choice of a model (Selection), tasks (Tasks) and
--   `ExecuteVideoTask` (Video), over internal/model/media.go (Model) and
--   internal/port/outbound/media.go (Ports).
-- A function has the source's name in snake_case; a name in comments between backquotes is the
-- source's.
--
-- How code is modelled. A method that mutates an object returns the new object with its error, if
-- any. A service method is a function of a world `W` to a reply (a value, an error, or a panic where
-- nil is dereferenced) and a new world; a port is a function of the world to a value or an error
-- message (in collaboration, to one of the errors of the domain, which the service compares). The ports are the parameters of the model: the world and its database are whatever
-- they are, and a theorem that needs more of them states it. `int64` and `int` are integers that each
-- operation reduces to 64 bits (Common.Int64). A UUID is a number, `0` for `uuid.Nil`; a time is a number
-- (of seconds, where the code adds minutes to it); a random id, a random number of an order or invoice and the
-- clock are arguments, and one call reads the same time throughout. A string type with constants is a
-- data type with one more constructor `other` for all other strings. A nil pointer is `none`. Texts that fmt
-- formats from numbers, and the texts of errors, are arguments or one constructor `from_port`; the calls of
-- the logger are left out, and contexts too, but for the one of `ExecuteVideoTask`, which is part of the world. Loops are structural recursion over a
-- list; a loop that waits for events takes the list of them, and where it ends is a theorem. Two loops have
-- fuel: the one of `generateSlug` that halves double hyphens, for which the length of the text is enough, since each
-- round shortens it (Git.SlugLaws), and the polls of `ExecuteVideoTask`, for which one round more than the
-- intervals that the deadline of the context allows is enough (Media.Endings). Functions of Go's libraries on texts, bcrypt, JWT and encryption are parameters.
-- A transaction is a port around a method; what it promises is stated where it is used.
--
-- Not modelled: methods that only pass a port's answer on (lists, lookups, statistics), since they
-- have no logic of their own; the adapters to databases, caches and providers, and HTTP
-- handlers, which are inputs and outputs of the models; concurrent calls on one row, which the services
-- do not lock, but for the tasks; the aggregates of teams, authentication, git and media, which their services do not use;
-- the semaphore and the subscribers of the manager of tasks; and, so far, the calls of the AI models around a
-- route, the administration of AI models and groups, and the event bus.
--
mod Common
pub mod Order
pub mod Payment
pub mod Billing
pub mod App
pub mod Git
pub mod Collaboration
pub mod User
pub mod Auth
pub mod Ai
pub mod Task
pub mod Media
