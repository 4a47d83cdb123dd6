-- ===== src/Lib.antt =====
-- The NestJS code base under src/: sessions in Redis, tokens and guards over them, the permissions
-- of routes, the answers of the API, messages over AMQP, and the services beside them.
--
-- A request with a token passes the guard (core/auth-gateway/auth.guard.ts), which reads the token
-- session and the authenticated session of the token's identifier; the permission interceptor
-- (core/permission) checks and extends the permissions of that session; the response interceptor
-- (core/interceptor) turns what the handler does into an answer. Tokens are made, renewed and
-- withdrawn by core/auth/base-auth.service.ts, which stores both sessions through
-- core/session/session.service.ts and core/redis/base-redis.service.ts. core/amqp sends and receives
-- messages. The routes of module/auth and module/sign-contract run behind the guard and both
-- interceptors. The other services stand by themselves: users in the database, streams, requests to
-- other servers, the settings and the loggers.
--
-- Files and code:
--   Common        conditionals, lists, JavaScript objects and texts, and Exec, a state that is kept
--                 when an error is thrown
--   Shared        shared/business/auth and shared/dto: SystemCode, SessionType, Flow, Token, Session,
--                 Response
--   Redis         Server is the Redis server that the code relies on, a parameter; Storage the
--                 commands of AbstractRedisService that sessions use, Commands the others; Memory a
--                 server that meets the parameter's laws
--   Session       BaseSessionService: addSession is add_session, and so on for each method
--   AuthSession   AuthSessionService and TokenSessionService
--   Overlap       calls of AuthSessionService that overlap: each reads, awaits and writes
--   Auth          BaseAuthService and AuthGatewayService
--   Login         module/auth: its service and routes
--   Guard         JwtGuard, JWTNormalGuard, validateSession, JWTContent, JWTSession
--   Permission    PermissionInterceptor
--   Response      BaseResponseInterceptor
--   SignContract  module/sign-contract: its service and the three routes, also when they overlap
--   Amqp          core/amqp: Cache, Address, Delivery, Sender; Management is the connection of
--                 amqp-management.service.ts, Receiver the receivers of receiveMessage as steps, which
--                 Replacement, Flood and Unheard are about, Reply the listeners of
--                 core/amqp/example.ts and module/rabbitmq-test
--   Stream        module/stream: the transaction of getReadStreamData, the events of handleDataStream
--   Dto           Paging: shared/dto/paging.dto.ts and getUserList; Url: interpolatedUrl and apiUrl
--   Api           the addresses: the DTO classes of shared/dto (Dtos), the decorators of all
--                 controllers (Controllers), and the prefix of main.ts
--   Environment   core/environment and module/environment: the variables of the process, and
--                 env-template.sh
--   Fetch         fetch/fetch.service.ts
--   Logger        core/logger: what is printed, and what is handed to the log database
--   Sql           core/entity/base-sql-service.ts, db-example/sql-service, the user repository and
--                 updateProfile and removeUser of module/user
--   Users         module/user: the service over the database and the query cache, and its routes
--   Tests         the models on concrete inputs
--
-- Elsewhere a call runs to its end before the next; in Overlap and SignContract.Overtaken others run
-- in between, and in Auth the deletes that are not awaited. A call of Amqp.Sender and of Amqp.Reply
-- may also wait without an end. The world of the session models is the
-- data of the server, the clock in milliseconds, which stands still during one call, the random
-- identifiers with the number of those drawn, and the deletes that a call which is not awaited has
-- still to issue. `authenticate` takes the number of these that run before its last write. Numbers
-- are natural ones, with signed ones for lifetimes; JavaScript's numbers are exact in this range.
-- The loop that connects to the broker again takes fuel, the number of its rounds
-- (Amqp.Management): one more than the attempts that fail is enough. Every other loop runs over a
-- list or a number.
--
-- Parameters: the Redis server (Redis.Server, Amqp.Cache), @nestjs/jwt, class-transformer and
-- class-validator (Auth.External, SignContract, Login), the broker and what becomes of a sender and
-- of what it sends (Amqp.Address, Amqp.Sender), the cache's answers (Amqp.Delivery), what is_closed()
-- of a receiver answers in the event of a close, which may be anything (Amqp.Receiver),
-- TypeORM and its query cache (Sql, Users, Stream), fetch (Fetch), the router of Express (Api),
-- JavaScript's numbers (Environment). Texts in Redis stand for what they denote, a session or a
-- payload, and JSON keeps a record less its undefined properties.
--
-- Not modelled: the logging inside the other components, the wiring of modules, thin calls of a
-- library, and what the AMQP client does with the credit of a link when a connection is opened again.
pub mod Common
pub mod Shared
pub mod Redis
pub mod Session
pub mod AuthSession
pub mod Auth
pub mod Guard
pub mod Permission
pub mod Response
pub mod Amqp
pub mod Dto
pub mod Api
pub mod SignContract
pub mod Login
pub mod Environment
pub mod Fetch
pub mod Logger
pub mod Overlap
pub mod Sql
pub mod Stream
pub mod Users
pub mod Tests
