-- ===== src/Lib.antt =====
-- D-Chat Desktop: the core of the Electron main process.
--
-- The program. D-Chat is a messenger over the NKN network. Its main process keeps a SQLite database
-- (src/main/db), services over it (src/main/services), and pushes what changes to a renderer.
-- `ChatService` receives every payload of the NKN client, routes it to the group, topic, discovery,
-- profile and call services, and handles direct messages, receipts and burn settings itself.
-- `VoiceCallService` runs voice and video calls: it signals through the NKN client and drives a sidecar
-- process that carries the media over TUNA sessions.
--
-- The files.
--   Common      Boolean tests, lists, integers and text that the parts share
--   Table       the statements of a repository over rows with a primary key, and their laws
--   Types       src/shared/types: messages, sessions, contacts, groups, and the packets on the network
--   Store       src/main/db/repositories: each statement as a function on `Db`; Store/Intact shows that
--               each keeps the keys that SQLite enforces
--   Exec        actions over the `World`: the database, the connection, what was sent and pushed, and
--               the downloads that were started; an action returns or throws. Exec/Laws and Exec/Reach
--               hold the rules by which `search` proves what an action keeps or reaches
--   Chat        src/main/services/chat-service.ts, a module for each concern: Sessions
--               (getOrCreateSession, consolidateLegacySessions), Notify (showNotification), Burn
--               (the burn scheduler, sendBurnOptionsToContact, handleContactOptions), Receipts, Route and Incoming
--               (handleIncomingMessage), Outgoing (sendMessage, markSessionRead), Uploads
--               (sendImageMessage, sendAudioMessage, sendFileMessage, retryAudioDownload), Downloads
--               (the downloads from IPFS and their retries)
--   Group       src/main/services/private-group-service.ts and src/main/crypto/ed25519-signature.ts:
--               Platform (what is taken from Node, and the signatures), Version (genGroupVersion),
--               Payload (what is read from a parsed content), Session, Sync (the member lists and the
--               options that clients exchange), Owner (createGroup, invite, kickOut), Joining
--               (onInvitationReceived, acceptInvitation), Welcome (onInviteeAccept,
--               onMemberSubscribe), Leaving (quit, onMemberQuit), Control
--               (handleIncomingControlMessage), Messages (sendGroupMessage,
--               handleIncomingGroupMessage), Uploads (sendGroupImage, sendGroupAudio, sendGroupFile and
--               the downloads, of which those of images, audio and files are Chat/Downloads once
--               more), Events (all of these, cut at their awaits). Facts is what the handlers leave in
--               the group tables, Keeping that all of them keep the keys
--   Profile     src/main/services/contact-profile-service.ts: the requests for profiles and the responses
--   Topic       src/main/services/topic-service.ts and src/main/utils/topic-hash.ts: Session (sessions and
--               rows of topics), Joining (createAndJoin, leave, refreshSubscribers, getSubscribers),
--               Messages (sendTopicMessage, handleIncomingTopicControl, handleIncomingTopicMessage),
--               Uploads (sendTopicImage, sendTopicAudio, sendTopicFile), Events (all of these as steps);
--               Facts is what they leave in the topic tables, Keeping that they keep the keys
--   Discovery   src/main/services/discovery-service.ts: Cache (cacheAvatar, readCachedAvatar), Announcing
--               (broadcastKnownGroups, verifySubscriberCounts, getDiscoveredGroups), Receiving
--               (handleAnnouncementMessage, handleIncomingBroadcast, seedBootstrapGroups,
--               createAndBroadcastGroup, the scan of stored announcements), Timers (start, stop), Routed (the group, topic and
--               discovery services together behind the router of Chat), Facts
--   Voice       src/main/services/voice-call-service.ts: State (its fields), Calls (what the user does),
--               Signals (handleSignalingMessage), Sidecar (handleSidecarMessage and the end of the
--               process), Events (all of these as steps of one machine)
--   Tests       the theorems at concrete inputs
--
-- How the code corresponds. A method keeps its name in snake case. A synchronous method is one action:
-- JavaScript runs it without interruption, so one time `now` stands for its calls of `Date.now()`, and
-- the ids of `crypto.randomUUID()` are arguments. In Voice, Chat/Outgoing, Group and Topic a method with
-- `await` is split there: what follows is a step of its own with the captured variables, and it may come
-- at any time. The methods of Discovery, and `create_and_join` and `leave` as whole methods, take the
-- answers of the network without anything between. The loop of `dialTuna` is given as a whole
-- too, with what else happens at its awaits as a parameter (`dial_tuna`). The services
-- that the setters of `ChatService` inject are the parameter `Services`; a theorem that depends on them
-- names what they must keep. A payload is taken as the value that its JSON holds; options and control
-- contents that the tables keep as JSON text are kept as values. Whether a text holds an announcement
-- (`announced`) and where inline audio is saved (`save_inline`) are parameters too. What the network
-- answers to a subscription or a query is an argument of the methods of Topic and Discovery, and the
-- files of the avatar cache are the parameter `Files`. In Group the printers
-- and parsers of JSON, the hashes and the signatures are the parameter `Platform`; a handler of a group
-- that reads nothing before it awaits a signature check is one action.
--
-- Bounds. Every loop of the modelled code runs over a list or a number of attempts: there is no
-- fuel. Times, durations and counters are natural numbers: negative and fractional values of the wire
-- are left out. They stay far below 2 ^ 53, so nothing wraps. A `fileType` of n and of "n" are
-- one. Addresses are ASCII.
--
-- The foreign key of a message on its session is enforced, since src/main/db/database.ts turns it on:
-- a statement that SQLite refuses is `none` in Store and the error `constraint` in Exec.
--
-- Not modelled: the discovery service's list of categories, the forms for contacts and the own profile,
-- the media services with their HTTP and file access, the wallet, the IPC handlers,
-- the renderer, and the Go sidecar behind its messages. Of the chat service: the download of a
-- thumbnail, which is the one of the group service line by line. Of the topic service: the downloads of
-- media, which are those of the chat service line by line. Of the calls: the table of pending sidecar
-- requests with their timeouts.
pub mod Common
pub mod Table
pub mod Types
pub mod Store
pub mod Exec
pub mod Chat
pub mod Group
pub mod Profile
pub mod Topic
pub mod Discovery
pub mod Voice
pub mod Tests
