-- ===== src/User/Blocklist.antt =====
-- src/user/blocklist.go: the reserved names and the reserved parts of names.
use redxt.Common.{List, [], ◌∷◌, Text, bytes}

abbrev pub blocklist : List Text
blocklist =
    bytes "admin"
    ∷ bytes "administrator"
    ∷ bytes "root"
    ∷ bytes "system"
    ∷ bytes "sysadmin"
    ∷ bytes "superuser"
    ∷ bytes "master"
    ∷ bytes "owner"
    ∷ bytes "operator"
    ∷ bytes "manager"
    ∷ bytes "moderator"
    ∷ bytes "mod"
    ∷ bytes "staff"
    ∷ bytes "support"
    ∷ bytes "helpdesk"
    ∷ bytes "help"
    ∷ bytes "service"
    ∷ bytes "daemon"
    ∷ bytes "server"
    ∷ bytes "host"
    ∷ bytes "node"
    ∷ bytes "cluster"
    ∷ bytes "api"
    ∷ bytes "www"
    ∷ bytes "web"
    ∷ bytes "mail"
    ∷ bytes "email"
    ∷ bytes "smtp"
    ∷ bytes "ftp"
    ∷ bytes "ssh"
    ∷ bytes "dns"
    ∷ bytes "proxy"
    ∷ bytes "gateway"
    ∷ bytes "router"
    ∷ bytes "firewall"
    ∷ bytes "localhost"
    ∷ bytes "local"
    ∷ bytes "internal"
    ∷ bytes "external"
    ∷ bytes "public"
    ∷ bytes "private"
    ∷ bytes "network"
    ∷ bytes "database"
    ∷ bytes "db"
    ∷ bytes "cache"
    ∷ bytes "redis"
    ∷ bytes "mysql"
    ∷ bytes "postgres"
    ∷ bytes "mongodb"
    ∷ bytes "elastic"
    ∷ bytes "nginx"
    ∷ bytes "apache"
    ∷ bytes "docker"
    ∷ bytes "healthz"
    ∷ bytes "metrics"
    ∷ bytes "swagger"
    ∷ bytes "app"
    ∷ bytes "application"
    ∷ bytes "bot"
    ∷ bytes "robot"
    ∷ bytes "crawler"
    ∷ bytes "spider"
    ∷ bytes "scraper"
    ∷ bytes "webhook"
    ∷ bytes "callback"
    ∷ bytes "cron"
    ∷ bytes "scheduler"
    ∷ bytes "worker"
    ∷ bytes "queue"
    ∷ bytes "job"
    ∷ bytes "task"
    ∷ bytes "process"
    ∷ bytes "microservice"
    ∷ bytes "lambda"
    ∷ bytes "function"
    ∷ bytes "auth"
    ∷ bytes "authentication"
    ∷ bytes "login"
    ∷ bytes "logout"
    ∷ bytes "signin"
    ∷ bytes "signout"
    ∷ bytes "signup"
    ∷ bytes "register"
    ∷ bytes "password"
    ∷ bytes "passwd"
    ∷ bytes "token"
    ∷ bytes "oauth"
    ∷ bytes "sso"
    ∷ bytes "saml"
    ∷ bytes "ldap"
    ∷ bytes "kerberos"
    ∷ bytes "security"
    ∷ bytes "secure"
    ∷ bytes "ssl"
    ∷ bytes "tls"
    ∷ bytes "certificate"
    ∷ bytes "cert"
    ∷ bytes "key"
    ∷ bytes "secret"
    ∷ bytes "credential"
    ∷ bytes "session"
    ∷ bytes "guest"
    ∷ bytes "anonymous"
    ∷ bytes "anon"
    ∷ bytes "user"
    ∷ bytes "users"
    ∷ bytes "member"
    ∷ bytes "members"
    ∷ bytes "subscriber"
    ∷ bytes "editor"
    ∷ bytes "author"
    ∷ bytes "contributor"
    ∷ bytes "reviewer"
    ∷ bytes "auditor"
    ∷ bytes "analyst"
    ∷ bytes "developer"
    ∷ bytes "dev"
    ∷ bytes "devops"
    ∷ bytes "engineer"
    ∷ bytes "architect"
    ∷ bytes "designer"
    ∷ bytes "tester"
    ∷ bytes "qa"
    ∷ bytes "billing"
    ∷ bytes "finance"
    ∷ bytes "legal"
    ∷ bytes "hr"
    ∷ bytes "sales"
    ∷ bytes "marketing"
    ∷ bytes "ceo"
    ∷ bytes "cto"
    ∷ bytes "cfo"
    ∷ bytes "coo"
    ∷ bytes "founder"
    ∷ bytes "cofounder"
    ∷ bytes "account"
    ∷ bytes "accounts"
    ∷ bytes "profile"
    ∷ bytes "profiles"
    ∷ bytes "settings"
    ∷ bytes "config"
    ∷ bytes "configuration"
    ∷ bytes "dashboard"
    ∷ bytes "panel"
    ∷ bytes "console"
    ∷ bytes "portal"
    ∷ bytes "home"
    ∷ bytes "index"
    ∷ bytes "main"
    ∷ bytes "default"
    ∷ bytes "null"
    ∷ bytes "nil"
    ∷ bytes "undefined"
    ∷ bytes "void"
    ∷ bytes "true"
    ∷ bytes "false"
    ∷ bytes "test"
    ∷ bytes "testing"
    ∷ bytes "debug"
    ∷ bytes "demo"
    ∷ bytes "example"
    ∷ bytes "sample"
    ∷ bytes "temp"
    ∷ bytes "temporary"
    ∷ bytes "tmp"
    ∷ bytes "backup"
    ∷ bytes "archive"
    ∷ bytes "log"
    ∷ bytes "logs"
    ∷ bytes "audit"
    ∷ bytes "report"
    ∷ bytes "reports"
    ∷ bytes "analytics"
    ∷ bytes "stats"
    ∷ bytes "status"
    ∷ bytes "about"
    ∷ bytes "contact"
    ∷ bytes "privacy"
    ∷ bytes "terms"
    ∷ bytes "docs"
    ∷ bytes "rest"
    ∷ bytes "graphql"
    ∷ bytes "grpc"
    ∷ bytes "websocket"
    ∷ bytes "ws"
    ∷ bytes "wss"
    ∷ bytes "http"
    ∷ bytes "https"
    ∷ bytes "endpoint"
    ∷ bytes "endpoints"
    ∷ bytes "route"
    ∷ bytes "routes"
    ∷ bytes "path"
    ∷ bytes "url"
    ∷ bytes "uri"
    ∷ bytes "hook"
    ∷ bytes "hooks"
    ∷ bytes "event"
    ∷ bytes "events"
    ∷ bytes "stream"
    ∷ bytes "autodiscover"
    ∷ bytes "blog"
    ∷ bytes "news"
    ∷ bytes "article"
    ∷ bytes "articles"
    ∷ bytes "post"
    ∷ bytes "posts"
    ∷ bytes "page"
    ∷ bytes "pages"
    ∷ bytes "feed"
    ∷ bytes "rss"
    ∷ bytes "atom"
    ∷ bytes "sitemap"
    ∷ bytes "robots"
    ∷ bytes "favicon"
    ∷ bytes "static"
    ∷ bytes "assets"
    ∷ bytes "images"
    ∷ bytes "image"
    ∷ bytes "img"
    ∷ bytes "media"
    ∷ bytes "upload"
    ∷ bytes "uploads"
    ∷ bytes "download"
    ∷ bytes "downloads"
    ∷ bytes "file"
    ∷ bytes "files"
    ∷ bytes "document"
    ∷ bytes "documents"
    ∷ bytes "message"
    ∷ bytes "messages"
    ∷ bytes "chat"
    ∷ bytes "notification"
    ∷ bytes "notifications"
    ∷ bytes "alert"
    ∷ bytes "alerts"
    ∷ bytes "inbox"
    ∷ bytes "outbox"
    ∷ bytes "sent"
    ∷ bytes "draft"
    ∷ bytes "drafts"
    ∷ bytes "spam"
    ∷ bytes "abuse"
    ∷ bytes "flag"
    ∷ bytes "block"
    ∷ bytes "mute"
    ∷ bytes "ban"
    ∷ bytes "shop"
    ∷ bytes "store"
    ∷ bytes "cart"
    ∷ bytes "checkout"
    ∷ bytes "order"
    ∷ bytes "orders"
    ∷ bytes "invoice"
    ∷ bytes "invoices"
    ∷ bytes "payment"
    ∷ bytes "payments"
    ∷ bytes "subscription"
    ∷ bytes "subscriptions"
    ∷ bytes "plan"
    ∷ bytes "plans"
    ∷ bytes "pricing"
    ∷ bytes "refund"
    ∷ bytes "coupon"
    ∷ bytes "discount"
    ∷ bytes "follow"
    ∷ bytes "follower"
    ∷ bytes "followers"
    ∷ bytes "following"
    ∷ bytes "friend"
    ∷ bytes "friends"
    ∷ bytes "like"
    ∷ bytes "likes"
    ∷ bytes "share"
    ∷ bytes "shares"
    ∷ bytes "comment"
    ∷ bytes "comments"
    ∷ bytes "reply"
    ∷ bytes "mention"
    ∷ bytes "mentions"
    ∷ bytes "tag"
    ∷ bytes "tags"
    ∷ bytes "group"
    ∷ bytes "groups"
    ∷ bytes "team"
    ∷ bytes "teams"
    ∷ bytes "community"
    ∷ bytes "communities"
    ∷ bytes "forum"
    ∷ bytes "forums"
    ∷ bytes "channel"
    ∷ bytes "channels"
    ∷ bytes "official"
    ∷ bytes "verified"
    ∷ bytes "trusted"
    ∷ bytes "partner"
    ∷ bytes "affiliate"
    ∷ bytes "sponsor"
    ∷ bytes "brand"
    ∷ bytes "trademark"
    ∷ bytes "copyright"
    ∷ bytes "policy"
    ∷ bytes "policies"
    ∷ bytes "tos"
    ∷ bytes "eula"
    ∷ bytes "gdpr"
    ∷ bytes "dmca"
    ∷ bytes "fuck"
    ∷ bytes "shit"
    ∷ bytes "ass"
    ∷ bytes "bitch"
    ∷ bytes "bastard"
    ∷ bytes "damn"
    ∷ bytes "cunt"
    ∷ bytes "dick"
    ∷ bytes "penis"
    ∷ bytes "vagina"
    ∷ bytes "sex"
    ∷ bytes "porn"
    ∷ bytes "xxx"
    ∷ bytes "nude"
    ∷ bytes "naked"
    ∷ bytes "nsfw"
    ∷ bytes "kill"
    ∷ bytes "murder"
    ∷ bytes "death"
    ∷ bytes "die"
    ∷ bytes "suicide"
    ∷ bytes "hate"
    ∷ bytes "nazi"
    ∷ bytes "hitler"
    ∷ bytes "racist"
    ∷ bytes "racism"
    ∷ bytes "terrorist"
    ∷ bytes "terrorism"
    ∷ bytes "isis"
    ∷ bytes "alqaeda"
    ∷ bytes "0"
    ∷ bytes "1"
    ∷ bytes "123"
    ∷ bytes "1234"
    ∷ bytes "12345"
    ∷ bytes "000"
    ∷ bytes "111"
    ∷ bytes "666"
    ∷ bytes "911"
    ∷ bytes "420"
    ∷ bytes "69"
    ∷ bytes "info"
    ∷ bytes "noreply"
    ∷ bytes "no-reply"
    ∷ bytes "donotreply"
    ∷ bytes "mailer"
    ∷ bytes "postmaster"
    ∷ bytes "webmaster"
    ∷ bytes "hostmaster"
    ∷ bytes "junk"
    ∷ bytes "trash"
    ∷ bytes "redxt"
    ∷ bytes "webappsgo"
    ∷ bytes "ddns"
    ∷ bytes "cve"
    ∷ bytes "data"
    ∷ bytes "rdap"
    ∷ bytes "whoami"
    ∷ bytes "ns1"
    ∷ bytes "ns2"
    ∷ bytes "wpad"
    ∷ bytes "isatap"
    ∷ bytes "administration"
    ∷ []

abbrev pub substring_blocked : List Text
substring_blocked =
    bytes "admin"
    ∷ bytes "root"
    ∷ bytes "system"
    ∷ bytes "mod"
    ∷ bytes "official"
    ∷ bytes "verified"
    ∷ []
