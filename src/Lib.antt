-- ===== src/Lib.antt =====
-- The verification of keera-gateway's core: the tenancy model of internal/policy (models and their
-- prices, bills, periods, limits, allow-lists, how the limits of an organisation, a project and a key
-- combine, filters, and routers with their checks), the gateway's local view of spend and credit,
-- internal/registry/budget.go, its caches and indexes, internal/registry/registry.go, the token
-- buckets of internal/ratelimit, the choice of a model by the routers of internal/gateway, and the
-- recorder of usage events, internal/usage/recorder.go.
--
-- How the parts interact. A request presents a key. `Resolve` combines the limits of the key's
-- levels into allow-lists, filters and scopes; `MayUse` says which models the key may call. The
-- registry's `Budgets` refuses a request whose scopes have spent their budgets (`Allow`) or whose
-- organisation has no credit left (`HoldCredit`), counts it while it runs (`StartRequest`,
-- `EndRequest`), and charges its cost (`Model.Cost`, `Charge`) to the windows of its scopes, which
-- `Period.Start` divides time into. A key may also name a router (`MayCallRouter`), a tree of steps
-- that was checked when it was saved (`Router.Problem`). `useRouter` walks it: filters, limits, which
-- take from the buckets of the `Limiter` or count in the budget windows, and route steps, each of
-- which chooses one of its destinations (`route`), until a model is reached. `serve` puts these
-- together: it checks what the request names (`target`), its locations, its rates, its credit and its
-- budgets (`admitted`), counts it, walks the router, checks the context window (`fits`), runs the
-- key's filters, sends the request down the chain of models (`forward`) and charges what came back
-- (`finish`); what it started and held it ends and releases on every way out. `Model.Bill` makes the line that the
-- organisation pays, and the `Recorder` hands the events on to the database.
--
-- Which file models which part:
--   Base, Base/*            shared helpers: Booleans, lists, texts as bytes, maps as association
--                           lists (Dict), integers (Int) and Go's 64-bit arithmetic (Int64)
--   Policy/Model            Model, Tokens, PriceTier (internal/policy/policy.go), Billing
--                           (internal/policy/billing.go)
--   Policy/Cost, Cost/*     Tokens.clamped, Model.Cost, Model.prices
--   Policy/Bill, Bill/*     Model.Bill, fee, line, CountsTokens, PriceAtFee (billing.go)
--   Policy/Calendar, .../*  Period.Start and Period.Next, with the civil calendar
--   Policy/Scope            Scope, Meter
--   Policy/AllowList, .../* narrowAllowList, narrowList, intersect, intersectTools, AllowsTool
--   Policy/Limits, .../*    RateLimit, Budget, Problem, count, quotas (policy.go, router.go)
--   Policy/Resolve, .../*   Resolve, narrow, JoinPrompts, appendFilters, MayUse
--   Policy/Names, .../*     validName and the other shapes of names
--   Policy/Filter, .../*    FilterMode, FilterRule.Valid
--   Policy/Route            Route, RouteMode, Ceiling, Unbounded
--   Policy/Router, .../*    Router, Step, Steps, Uses, Routes, Scopes, Reaches, ReadsWith,
--                           MayCallRouter
--   Policy/Router/Problems  Router.Problem and the checks of one step (internal/policy/router.go)
--   Registry/Budgets, .../* Budgets of internal/registry/budget.go; Prepaid has the credit
--   Registry/Changes        the names of changes, and what a pass over them wants (registry.go)
--   Registry/Cache, .../*   the cache of resolved keys: lookupCache, remember, Forget, Sweep
--   Registry/Index          replaceAll, replaceOrg and find
--   Ratelimit/Limiter, ...  Limiter of internal/ratelimit/limiter.go
--   Gateway/Serve           chatProblem, readerProblem, serveable (internal/gateway/route.go),
--                           sortDestinations (route_check.go), destinations (forward.go)
--   Gateway/Sorting         stable sorting, and what it has in front
--   Gateway/Load, .../*     loads of internal/gateway/load.go
--   Gateway/Size, .../*     sized, sizeBands, sizeWarnings (size.go), the estimates of tokens.go
--   Gateway/Choice, .../*   readDecision, chosenDestination, decide (route.go), labelIndex (choice.go)
--   Gateway/Limits          checkRates, checkQuotas, tightest (refuse.go), checkBudgets (serve.go)
--   Gateway/Route, .../*    route, chain, routeFallback, settle, routeWindow (route.go), byHeader
--                           (header.go)
--   Gateway/Walk, .../*     useRouter and its steps (router.go), useRoute (serve.go)
--   Gateway/Target, .../*   target, aliasRefusal, lookupModel (serve.go), callable (models.go)
--   Gateway/Credit, .../*   creditHold and its parts (credit.go), answerCost (filter.go),
--                           filterOutside (location.go)
--   Gateway/Window, .../*   fits (window.go)
--   Gateway/Admission, ...  admitted (serve.go), refuse, closeEarly, hungUp (refuse.go)
--   Gateway/Request, .../*  serve, admit, useFilters, answer, finish (serve.go)
--   Gateway/Forward, .../*  forward, send, done (forward.go)
--   Gateway/Pattern, .../*  runPattern, compileRules, cleanTexts (pattern.go)
--   Gateway/Filters, .../*  applyFilters, chainFilter, filterModel (filter.go)
--   Usage/Recorder, .../*   Recorder of internal/usage/recorder.go, as a step relation
--   Tests, Tests/*          concrete inputs on which the theorems are used
--
-- State and operations. A struct is a record and a method that changes it a function that returns
-- the new record; a mutex makes a method one step. A map is an association list in which the first
-- entry of a key counts. A nil slice that means something else than an empty one is an `Option`. Go's
-- named string types are texts. A Go `int` or `int64` is an integer (ℤ), and every operation wraps
-- around at 64 bits. Times are natural numbers of nanoseconds since Go's zero time. Error values are
-- data or `Option`, and name a problem instead of wording it. Every loop is structural recursion on
-- a list or on the tree of steps, so no fuel is needed. The engine of regular expressions is a
-- parameter. The tokens of a bucket, which the source keeps in floating
-- point, are exact fractions, without its rounding; the wait for a token, a quotient in floating point,
-- is left out.
-- The counters that only order events (generations and drops) do not wrap around. The registry's
-- lookup of a model is a function `find`. What a request's filters, its headers, the measurements and
-- the models that it asks answer are the fields of the records `World` and `Inputs`; what else a
-- request meets are those of `Site`, `Network` (backends), `Readers` (filters) and `Engine` (regular expressions). Lower case is
-- that of ASCII where a model's answer is read.
--
-- Not modelled: the reload loops of the registry, the limiter that gateways share through Redis,
-- how a filter asks a model, the cache of compiled rules and the distribution over letters; and the control plane, the
-- store's SQL, sign-in, the wire formats and the parts of the gateway that talk to providers, which
-- are input and output or calls of other libraries.
pub mod Base
pub mod Gateway
pub mod Policy
pub mod Ratelimit
pub mod Registry
mod Tests
pub mod Usage
